-- ===== src/Node/Receiver/Entering.antt =====
-- src/node/node.go, `receive`: what making the directory of an accepted offer leaves as it is.
use ftu.Common.{◌≡◌, sym, ap, Option, none, some, Bytes, Outcome, ok, err, panic, unfinished}
use ftu.Fsys.Disk.{Disk}
use ftu.Fsys.Tree.{Directory}
use ftu.Node.Receiver.{Surroundings, ReceiverNode, enter_directory}

-- What making a directory does not touch.
pub record Keeps (n n' : ReceiverNode) : Type 0 where
  pub stopped : n'.stopped ≡ n.stopped
  pub conn : n'.conn ≡ n.conn
  pub key : n'.encryption_key ≡ n.encryption_key
  pub pool : n'.accepted_files ≡ n.accepted_files
  pub offers : n'.offers ≡ n.offers

Keeps-same : (n n' : ReceiverNode) → n ≡ n' → Keeps n n'
Keeps-same n n' e = record {
  stopped = sym (ap (λ x. x.stopped) e);
  conn = sym (ap (λ x. x.conn) e);
  key = sym (ap (λ x. x.encryption_key) e);
  pool = sym (ap (λ x. x.accepted_files) e);
  offers = sym (ap (λ x. x.offers) e);
}

Keeps-moved :
    (n n' : ReceiverNode) (path : Bytes) (d : Disk)
    → record n { disk = d; downloads_path = path } ≡ n'
    → Keeps n n'
Keeps-moved n n' path d e = record {
  stopped = sym (ap (λ x. x.stopped) e);
  conn = sym (ap (λ x. x.conn) e);
  key = sym (ap (λ x. x.encryption_key) e);
  pool = sym (ap (λ x. x.accepted_files) e);
  offers = sym (ap (λ x. x.offers) e);
}

Outcome-cases :
    (n n' : ReceiverNode) (path : Bytes) (o : Outcome Disk)
    → (elim o [
      | ok disk ↦ ok (record n { disk = disk; downloads_path = path })
      | err e ↦ ok n
      | panic ↦ panic
      | unfinished ↦ unfinished
    ])
      ≡ ok n'
    → Keeps n n'
Outcome-cases n n' path (ok disk) e = Keeps-moved n n' path disk cc
Outcome-cases n n' path (err reason) e = Keeps-same n n' cc
Outcome-cases n n' path panic e = absurd cc
Outcome-cases n n' path unfinished e = absurd cc

pub enter_directory-Keeps :
    (env : Surroundings) (directory : Option Directory) (n n' : ReceiverNode)
    → enter_directory env directory n ≡ ok n'
    → Keeps n n'
unfolding enter_directory
enter_directory-Keeps env none n n' e = Keeps-same n n' cc
enter_directory-Keeps env (some d) n n' e = Outcome-cases n n' _ _ e
