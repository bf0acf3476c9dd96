-- ===== src/Runner/Tally.antt =====
-- The counters of the runner's last loop, and its exit status.
pub mod Exit
pub mod Blame
use cmfuzz.Base.{
  ℕ, zero, suc, ◌+◌, List, [], ◌∷◌, ◌++◌, Option, none, some, get_or, set, length, replicate, ◌==◌,
  if◌then◌else◌,
}
use cmfuzz.Runner.Vote.{
  Voter, Backend, Event, verify_mismatch, pair_mismatch, minority, no_consensus, reference_voter,
  other_voters, judge,
}

-- `failures`, `ref_outlier` and `bdiv`. The counters are plain numbers: one run counts less than
-- `INT_MAX` divergences.
pub record Tally : Type 0 where
  pub failures : ℕ
  pub ref_outlier : ℕ
  pub bdiv : List ℕ

-- `bdiv[vb]++`, or `ref_outlier++` at -1.
pub blame : Option ℕ → Tally → Tally
blame none t = record t { ref_outlier = t.ref_outlier + 1 }
blame (some b) t = record t { bdiv = set t.bdiv b (get_or t.bdiv b 0 + 1) }

pub fail : Tally → Tally
fail t = record t { failures = t.failures + 1 }

pub count_event : Tally → Event → Tally
unfolding blame fail
count_event t (verify_mismatch v) = fail (blame v.backend t)
count_event t (pair_mismatch v) = fail (blame v.backend t)
count_event t (minority v) = fail (blame v.backend t)
count_event t no_consensus = fail t

pub count_events : Tally → List Event → Tally
unfolding count_event
count_events t [] = t
count_events t (e ∷ es) = count_events (count_event t e) es

-- One vector as the first loop leaves it: its op and the reference's reply.
pub record Vector : Type 0 where
  pub op : ℕ
  pub ref_hex : List ℕ

-- All events of the vectors from number `i` on.
pub events_from : ℕ → List Backend → List Vector → List Event
events_from i backends [] = []
events_from i backends (v ∷ vs) =
    judge v.op (reference_voter v.ref_hex) (other_voters i backends)
    ++ events_from (i + 1) backends vs

abbrev pub fresh_tally : List Backend → Tally
fresh_tally backends = record {
  failures = 0;
  ref_outlier = 0;
  bdiv = replicate (length backends) 0;
}

pub tally_run : List Backend → List Vector → Tally
unfolding count_events events_from
tally_run backends vectors = count_events (fresh_tally backends) (events_from 0 backends vectors)

-- What `main` returns after the summary.
pub exit_status : List Backend → List Vector → ℕ
unfolding tally_run
exit_status backends vectors = if (tally_run backends vectors).failures == 0 then 0 else 1
