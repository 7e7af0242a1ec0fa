-- ===== src/Examples/Sending.antt =====
-- The theorems on the queue of a sending node at concrete inputs.
use ftu.Common.{ℕ, ◌≡◌, refl, true, false, some, none, List, [], ◌∷◌, codes, ok, arith}
use ftu.Common.BigEndian.{put_u64, read_u64}
use ftu.Node.State.{SenderNode, Env}
use ftu.Node.Sender.{id_of, on_accept, on_already_have}
use ftu.Node.Sender.Queue.{IsQueue}
use ftu.Node.Sender.Accept.{IsAccepted, on_accept-IsAccepted}
use ftu.Node.Sender.AlreadyHave.{skip_current, on_already_have-current}
use ftu.Examples.World.{padding_cipher, open_os, small_disk, notes}

abbrev pub env : Env
env = record { cipher = padding_cipher; os = open_os; rel = λ base path. some path }

-- Two files, of which the first `k` were sent.
abbrev pub two_files : ℕ → List ℕ → SenderNode
two_files k queue = record {
  stopped = false;
  conn = record { outgoing = []; alive = true };
  encryption_key = none;
  sending = record {
    is_directory = true;
    can_send_bytes = false;
    allowed_to_transfer = true;
    in_transfer = true;
    files_to_send = queue;
    symlinks_to_send = [];
    current_file_id = k;
    sent_bytes = 0;
    total_transfer_size = 10;
    current_symlink_index = 0;
  };
  files = record notes { id = 0 } ∷ (record notes { id = 1 } ∷ []);
  symlinks = [];
  base = codes "/";
  disk = small_disk;
}

on_accept-IsAccepted_example :
    (n' : SenderNode) × (on_accept env (two_files 0 []) ≡ ok n')
    × IsAccepted env (two_files 0 []) n'
on_accept-IsAccepted_example =
    on_accept-IsAccepted env (two_files 0 []) (((_, refl), ((_, refl), tt)), tt) refl (omega arith)

on_already_have-current_example :
    (on_already_have (two_files 0 (0 ∷ (1 ∷ []))) (put_u64 0)
      ≡ ok (skip_current (two_files 0 (0 ∷ (1 ∷ []))) (record notes { id = 0 })))
    × IsQueue (skip_current (two_files 0 (0 ∷ (1 ∷ []))) (record notes { id = 0 }))
unfolding id_of read_u64 put_u64
on_already_have-current_example =
    on_already_have-current (two_files 0 (0 ∷ (1 ∷ []))) (put_u64 0) (record notes { id = 0 })
      (record {
        ids = (refl, (refl, tt));
        small = omega arith;
        within = omega arith;
        queued = refl;
      })
      refl refl
