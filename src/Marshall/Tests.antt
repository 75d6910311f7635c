-- ===== src/Marshall/Tests.antt =====
-- Records in a buffer, and the round trip at them.
use ctdb.Base.{◌≡◌, refl, arith, true, none, some, [], ◌∷◌, replicate, All}
use ctdb.Marshall.Record.{Entry, header_length}
use ctdb.Marshall.Buffer.{ctdb_marshall_add, loop_from}
use ctdb.Marshall.RoundTrip.{Fits, marshall_all, marshall-loop}

abbrev first_entry : Entry
first_entry = record {
  reqid = 300;
  key = 7 ∷ [];
  header = some (replicate 24 5);
  body = 1 ∷ 2 ∷ [];
}

abbrev second_entry : Entry
second_entry = record { reqid = 4; key = 8 ∷ 9 ∷ []; header = some (replicate 24 6); body = [] }

entries-Fits : All (Fits true) (first_entry ∷ second_entry ∷ [])
unfolding header_length
entries-Fits = (
  record { reqid = omega arith; size = omega arith; header = refl },
  (record { reqid = omega arith; size = omega arith; header = refl }, tt),
)

marshall-loop_example :
    loop_from true
      (marshall_all 17 (second_entry ∷ []) (ctdb_marshall_add 17 first_entry none)).count
      (marshall_all 17 (second_entry ∷ []) (ctdb_marshall_add 17 first_entry none)).bytes
      none
    ≡ some (first_entry ∷ second_entry ∷ [])
marshall-loop_example =
    marshall-loop true 17 first_entry (second_entry ∷ []) entries-Fits (omega arith)
