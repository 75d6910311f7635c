-- ===== src/Logging/Tests.antt =====
-- Three messages in a ring buffer of two entries.
use ctdb.Base.{length, ◌+◌, ℕ, ◌≡◌, refl, arith, none, List, [], ◌∷◌}
use ctdb.Logging.Buffer.{
  ℤ, pos, negsuc, debug_err, cut, LogEntry, LogRing, log_ringbuffer_v, collect, ctdb_collect_log,
  ctdb_clear_log,
}
use ctdb.Logging.Ring.{push}
use ctdb.Logging.Collected.{LogMessage, visible, log_all, push_all, collect-push_all}

abbrev unused : ℕ → LogEntry
unused k = record { level = pos 0; t = 0; message = [] }

abbrev message : (level : ℤ) (text : ℕ) → LogMessage
message level text = record { level = level; t = 7; text = text ∷ [] }

abbrev messages : List LogMessage
messages = message (pos 0) 65 ∷ message (pos 2) 66 ∷ message (negsuc 1) 67 ∷ []

abbrev ring : LogRing
ring = record { log_entries = none; first_entry = 0; ringbuf_count = 0 }

-- What stands for the text with the number of entries.
abbrev numbered : ℕ → List ℕ
numbered n = (48 + n) ∷ []

-- The alert is the last message, and the collection enters one of its own.
collected :
    ctdb_collect_log 2 unused 8 numbered (pos 0) (log_all 2 unused messages (ctdb_clear_log ring))
    ≡ record { level = negsuc 1; t = 7; message = 67 ∷ [] }
      ∷ record { level = pos 0; t = 8; message = 50 ∷ [] }
      ∷ []
unfolding ctdb_collect_log log_all log_ringbuffer_v ctdb_clear_log collect
collected = refl

collect-push_all_example :
    ctdb_collect_log 2 unused 8 numbered (pos 0) (log_all 2 unused messages (ctdb_clear_log ring))
    ≡ visible (pos 0) (
        push 2
          (record {
            level = debug_err;
            t = 8;
            message = cut (numbered (length (push_all 2 messages [])));
          })
          (push_all 2 messages []))
collect-push_all_example = collect-push_all 2 unused messages ring 8 numbered (pos 0) (omega arith)
