-- ===== src/Message/Tests.antt =====
-- An index in memory, and the theorem about message handlers at a few requests.
use ctdb.Base.{
  ℕ, ◌≡◌, ◌≢◌, refl, ap, arith, true, not, Option, none, some, List, [], ◌∷◌, ◌==◌, if◌then◌else◌,
  subst,
}
use ctdb.Message.Index.{IndexTdb, MessageList}
use ctdb.Message.Handlers.{is_nil, ctdb_dispatch_message, ctdb_check_message_handler}
use ctdb.Message.Table.{empty, Request, register, deregister, free, delivered}
use ctdb.Message.Refinement.{at_start, run, replay, run-refines}

abbrev Entries : Type 0
Entries = ℕ → Option ℕ

abbrev with : Entries → ℕ → Option ℕ → Entries
with s k a j = if j == k then a else s j

abbrev insert_at : Entries → ℕ → ℕ → Option ℕ → Option Entries
insert_at s k a none = some (with s k (some a))
insert_at s k a (some b) = none

abbrev delete_at : Entries → ℕ → Option ℕ → Option Entries
delete_at s k none = none
delete_at s k (some b) = some (with s k none)

with_same : (s : Entries) (k : ℕ) (a : Option ℕ) → with s k a k ≡ a
with_same s k a = ground arith

with_other : (s : Entries) (k j : ℕ) (a : Option ℕ) → j ≢ k → with s k a j ≡ s j
with_other s k j a ne = ground (arith, ne)

inserted :
    (s t : Entries) (k a : ℕ) (o : Option ℕ) → insert_at s k a o ≡ some t → with s k (some a) ≡ t
inserted s t k a none e = cc
inserted s t k a (some b) e = cc

deleted : (s t : Entries) (k : ℕ) (o : Option ℕ) → delete_at s k o ≡ some t → with s k none ≡ t
deleted s t k none e = cc
deleted s t k (some b) e = cc

abbrev memory : IndexTdb
memory = record {
  State = Entries;
  empty = λ j. none;
  fetch = λ s k. s k;
  insert = λ s k a. insert_at s k a (s k);
  delete = λ s k. delete_at s k (s k);
  fetch-empty = λ k. refl;
  fetch-insert =
      λ s t k a e. subst (λ u. u k ≡ some a) (inserted s t k a (s k) e) (with_same s k (some a));
  fetch-insert_other = λ s t k j a e ne.
      subst (λ u. u j ≡ s j) (inserted s t k a (s k) e) (with_other s k j (some a) ne);
  delete_present = λ s k a e. (with s k none, ap (delete_at s k) e);
  fetch-delete = λ s t k e. subst (λ u. u k ≡ none) (deleted s t k (s k) e) (with_same s k none);
  fetch-delete_other =
      λ s t k j e ne. subst (λ u. u j ≡ s j) (deleted s t k (s k) e) (with_other s k j none ne);
}

abbrev handler : (id fn private : ℕ) → MessageList
handler id fn private = record { id = id; message_handler = fn; message_private = private }

-- Two handlers of srvid 7, of which one is taken back, one of srvid 8, and a request for an unknown one.
abbrev requests : List Request
requests =
    register true 7 (handler 1 100 11)
    ∷ register true 7 (handler 2 200 22)
    ∷ register true 8 (handler 3 300 33)
    ∷ deregister 7 11
    ∷ deregister 9 11
    ∷ free 8 3
    ∷ []

run-refines_example :
    (let (oks, s) = run memory requests (at_start memory) in
      let (results, t) = replay requests oks empty in
      (results ≡ oks)
      × ((k : ℕ) → ctdb_dispatch_message memory s k ≡ delivered t k)
      × ((k : ℕ) → ctdb_check_message_handler memory k s ≡ not (is_nil (t k))))
run-refines_example = run-refines memory requests
