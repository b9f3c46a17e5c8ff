-- ===== src/Signer/Ixfr/Tests.antt =====
-- Tests and instances for the journal: a record is a number, and those from 100 on are SOA records.
use opendnssec_workflow_test.Common.{ℕ, ◌≡◌, refl, Bool, true, false, List, [], ◌∷◌, some, leb, All}
use opendnssec_workflow_test.Signer.Ixfr.{ixfr_create}
use opendnssec_workflow_test.Signer.Ixfr.Journal.{
  Difference, Call, Made, purges, adds, dels, run, history, journal, outcome, run-journal,
  IsComplete,
}

abbrev is_soa : ℕ → Bool
is_soa rr = leb 100 rr

abbrev now : Call ℕ is_soa → Made ℕ is_soa
now call = record { call = call; initialized = true; memory = true }

-- The first comes before the database is there.
abbrev calls : List (Made ℕ is_soa)
calls =
    record { call = adds 5; initialized = false; memory = true }
    ∷ now purges
    ∷ now (dels 101)
    ∷ now (adds 102)
    ∷ now (adds 7)
    ∷ now purges
    ∷ now (dels 102)
    ∷ now (dels 7)
    ∷ now (adds 103)
    ∷ []

created : ixfr_create ℕ is_soa true ≡ some (journal ℕ is_soa 3 [])
unfolding ixfr_create
created = refl

run-journal_example :
    run ℕ is_soa calls (journal ℕ is_soa 3 []) ≡ outcome ℕ is_soa (history ℕ is_soa calls [])
run-journal_example = run-journal ℕ is_soa calls []

abbrev first : Difference ℕ is_soa
first = record { added = 102 ∷ 7 ∷ []; removed = 101 ∷ [] }

abbrev second : Difference ℕ is_soa
second = record { added = 103 ∷ []; removed = 102 ∷ 7 ∷ [] }

came_to : history ℕ is_soa calls [] ≡ some (second ∷ first ∷ [])
unfolding history
came_to = refl

abbrev both : All (IsComplete ℕ is_soa) (second ∷ first ∷ [])
both = (
  record { soamin = 102; soaplus = 103; has_soamin = refl; has_soaplus = refl },
  (record { soamin = 101; soaplus = 102; has_soamin = refl; has_soaplus = refl }, tt),
)
