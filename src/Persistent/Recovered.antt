-- ===== src/Persistent/Recovered.antt =====
-- server/ctdb_persistent.c and server/ctdb_recoverd.c: which database a recovery by sequence numbers takes, when the
-- nodes answer as they do.
use ctdb.Base.{
  ◌⊎◌, inl, sym, subst, List, ℕ, ◌%◌, ◌<◌, ◌≡◌, ◌∙◌, inr, ap, arith, true, false, some, [], ◌∷◌,
  if◌then◌else◌,
}
use ctdb.Dmaster.Header.{Rec}
use ctdb.Dmaster.Node.{Node}
use ctdb.Recovery.Database.{Dbs, full, rec_of, at_key}
use ctdb.Recovery.Pull.{Remote, pull_one_remote_database, pull_all, pull_remote_database}
use ctdb.Recovery.Seqnum.{find_node-first, pull_remote_database-by_seqnum}
use ctdb.Persistent.Seqnum.{ctdb_control_get_db_seqnum, answered, held, answered-low_byte}

-- Of two active nodes that answer the question for the sequence number as ctdb_control_get_db_seqnum does, on a
-- little-endian host, in any order, the first one is the one whose records are pulled when the lowest byte of its number
-- is higher, even when its number is lower; only when that pull fails are the records of both merged.
pub pull_remote_database-by_low_byte :
    (d : Dbs) (k : ℕ) (a b : Node d.State) (x y : Rec) (p q : Remote) (arrived : List Remote)
    (recovery_master : ℕ) (s : d.State)
    → d.fetch a.store k ≡ some (full x)
    → d.fetch b.store k ≡ some (full y)
    → p.seqnum ≡ answered (ctdb_control_get_db_seqnum (at_key d k) (some a))
    → q.seqnum ≡ answered (ctdb_control_get_db_seqnum (at_key d k) (some b))
    → p.inactive ≡ false
    → held y.body % 256 < held x.body % 256
    → (arrived ≡ p ∷ q ∷ []) ⊎ (arrived ≡ q ∷ p ∷ [])
    → pull_remote_database d true recovery_master true arrived (p ∷ q ∷ []) s ≡ (
        let r = pull_one_remote_database d recovery_master p s in
        if r.ok then r else pull_all d recovery_master (p ∷ q ∷ []) r.recdb)
pull_remote_database-by_low_byte d k a b x y p q arrived recovery_master s fa fb ap' aq on l order =
    let low = held y.body % 256 in
    let high = held x.body % 256 in
    let e = at_key d k in
    let nodes = p ∷ q ∷ [] in
    let asked = aq ∙ answered-low_byte e b y (ap rec_of fb) in
    let told = ap' ∙ answered-low_byte e a x (ap rec_of fa) in
    let found = find_node-first p [] (q ∷ []) tt in
    let r = pull_one_remote_database d recovery_master p s in
    let P : List Remote → Type 0 = λ o.
      pull_remote_database d true recovery_master true o nodes s
      ≡ (if r.ok then r else pull_all d recovery_master nodes r.recdb) in
    elim order [
      | inl first ↦ subst P (sym first) (
          pull_remote_database-by_seqnum d recovery_master high [] (q ∷ []) nodes p s found tt
            (inr (low, asked, omega (arith, l)), tt) on told (omega (arith, l)))
      | inr second ↦ subst P (sym second) (
          pull_remote_database-by_seqnum d recovery_master high (q ∷ []) [] nodes p s found
            (inr (low, asked, l), tt) tt on told (omega (arith, l)))
    ]
