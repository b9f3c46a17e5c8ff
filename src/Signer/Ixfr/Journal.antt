-- ===== src/Signer/Ixfr/Journal.antt =====
-- The journal holds the last three differences of the zone, whatever calls were made.
use mathlib.Core.List.{append-nil, append_assoc}
use opendnssec_workflow_test.Common.{
  ℕ, zero, suc, ◌≡◌, refl, sym, ap, ◌∙◌, Bool, true, List, [], ◌∷◌, ◌++◌, Option, none, some,
  if◌then◌else◌, All, false, not, inl, inr, Option-cases,
}
use opendnssec_workflow_test.Common.Result.{Result, ok, err, assertion, ◌>>=◌}
use opendnssec_workflow_test.Signer.Ixfr.{
  Part, Ixfr, part_create, ixfr_add_rr, ixfr_del_rr, purge_loop, ixfr_purge, nonsoa, part_print,
  print_loop, ixfr_print,
}

module _ (Rr : Type 0) (is_soa : Rr → Bool) where
  -- A difference: the records that were added, and those that were removed.
  pub record Difference : Type 0 where
    pub added : List Rr
    pub removed : List Rr

  pub data Call : Type 0 where
    purges : Call
    adds dels : Rr → Call

  -- A call as it is made: whether the zone's database is initialized then, and whether memory is found.
  pub record Made : Type 0 where
    pub call : Call
    pub initialized : Bool
    pub memory : Bool

  abbrev pub perform : Made → Ixfr Rr is_soa → Result (Ixfr Rr is_soa)
  perform m parts = elim m.call [
    | purges ↦ ixfr_purge Rr is_soa m.memory parts
    | adds rr ↦ ixfr_add_rr Rr is_soa m.initialized m.memory parts rr
    | dels rr ↦ ixfr_del_rr Rr is_soa m.initialized m.memory parts rr
  ]

  pub run : List Made → Ixfr Rr is_soa → Result (Ixfr Rr is_soa)
  run [] parts = ok parts
  run (m ∷ calls) parts = do parts' ← perform m parts; run calls parts'

  -- The specification: all differences, the last one first; nothing is left of a process that ended.
  abbrev pub with_added : Rr → List Difference → Option (List Difference)
  with_added rr [] = none
  with_added rr (d ∷ ds) = some (record d { added = d.added ++ rr ∷ [] } ∷ ds)

  abbrev pub with_removed : Rr → List Difference → Option (List Difference)
  with_removed rr [] = none
  with_removed rr (d ∷ ds) = some (record d { removed = d.removed ++ rr ∷ [] } ∷ ds)

  abbrev pub comes_to : Made → List Difference → Option (List Difference)
  comes_to m ds = elim m.call [
    | purges ↦ if m.memory then some (record { added = []; removed = [] } ∷ ds) else none
    | adds rr ↦ if not m.initialized then some ds else if m.memory then with_added rr ds else none
    | dels rr ↦ if not m.initialized then some ds else if m.memory then with_removed rr ds else none
  ]

  unfoldable pub history : List Made → List Difference → Option (List Difference)
  history [] ds = some ds
  history (m ∷ calls) ds = elim (comes_to m ds) [ none ↦ none | some ds' ↦ history calls ds' ]

  -- The last SOA of a list, or else the one given.
  abbrev pub last_soa : Option Rr → List Rr → Option Rr
  last_soa found [] = found
  last_soa found (rr ∷ rrs) = last_soa (if is_soa rr then some rr else found) rrs

  last_soa-append :
      (found : Option Rr) (rrs : List Rr) (rr : Rr)
      → last_soa found (rrs ++ rr ∷ []) ≡ (if is_soa rr then some rr else last_soa found rrs)
  last_soa-append found [] rr = refl
  last_soa-append found (x ∷ rrs) rr = last_soa-append (if is_soa x then some x else found) rrs rr

  abbrev pub part_of : Difference → Part Rr is_soa
  part_of d = record {
    soamin = last_soa none d.removed;
    min = d.removed;
    soaplus = last_soa none d.added;
    plus = d.added;
  }

  -- The first slots of the journal of these differences.
  abbrev pub journal : ℕ → List Difference → Ixfr Rr is_soa
  journal zero ds = []
  journal (suc n) [] = none ∷ journal n []
  journal (suc n) (d ∷ ds) = some (part_of d) ∷ journal n ds

  ixfr_purge-journal :
      (ds : List Difference)
      → ixfr_purge Rr is_soa true (journal 3 ds)
        ≡ ok (journal 3 (record { added = []; removed = [] } ∷ ds))
  unfolding ixfr_purge purge_loop part_create
  ixfr_purge-journal [] = refl
  ixfr_purge-journal (d ∷ []) = refl
  ixfr_purge-journal (d ∷ e ∷ []) = refl
  ixfr_purge-journal (d ∷ e ∷ f ∷ ds) = refl

  ixfr_add_rr-journal :
      (d : Difference) (ds : List Difference) (rr : Rr)
      → ixfr_add_rr Rr is_soa true true (journal 3 (d ∷ ds)) rr
        ≡ ok (journal 3 (record d { added = d.added ++ rr ∷ [] } ∷ ds))
  unfolding ixfr_add_rr
  ixfr_add_rr-journal d ds rr = rw (last_soa-append none d.added rr) refl

  ixfr_del_rr-journal :
      (d : Difference) (ds : List Difference) (rr : Rr)
      → ixfr_del_rr Rr is_soa true true (journal 3 (d ∷ ds)) rr
        ≡ ok (journal 3 (record d { removed = d.removed ++ rr ∷ [] } ∷ ds))
  unfolding ixfr_del_rr
  ixfr_del_rr-journal d ds rr = rw (last_soa-append none d.removed rr) refl

  abbrev pub outcome : Option (List Difference) → Result (Ixfr Rr is_soa)
  outcome none = err assertion
  outcome (some ds) = ok (journal 3 ds)

  perform-outcome :
      (call : Call) (initialized memory : Bool) (ds : List Difference)
      → (let m : Made = record { call = call; initialized = initialized; memory = memory } in
          perform m (journal 3 ds) ≡ outcome (comes_to m ds))
  unfolding ixfr_purge ixfr_add_rr ixfr_del_rr part_create
  perform-outcome purges i true ds = ixfr_purge-journal ds
  perform-outcome purges i false ds = refl
  perform-outcome (adds rr) false memory ds = refl
  perform-outcome (adds rr) true true [] = refl
  perform-outcome (adds rr) true true (d ∷ ds) = ixfr_add_rr-journal d ds rr
  perform-outcome (adds rr) true false [] = refl
  perform-outcome (adds rr) true false (d ∷ ds) = refl
  perform-outcome (dels rr) false memory ds = refl
  perform-outcome (dels rr) true true [] = refl
  perform-outcome (dels rr) true true (d ∷ ds) = ixfr_del_rr-journal d ds rr
  perform-outcome (dels rr) true false [] = refl
  perform-outcome (dels rr) true false (d ∷ ds) = refl

  history_ended :
      (m : Made) (calls : List Made) (ds : List Difference)
      → comes_to m ds ≡ none
      → history (m ∷ calls) ds ≡ none
  unfolding history
  history_ended m calls ds q = rw (history, q) refl

  history_next :
      (m : Made) (calls : List Made) (ds ds' : List Difference)
      → comes_to m ds ≡ some ds'
      → history (m ∷ calls) ds ≡ history calls ds'
  unfolding history
  history_next m calls ds ds' q = rw (history, q) refl

  -- Whatever calls are made on the journal of some differences, of purging and of records added and
  -- removed, with memory or without, the journal then is that of the differences that the calls come
  -- to, of which it holds the last three. A record added or removed while the zone's database is not
  -- initialized changes nothing; the process ends just when there is no memory for another call, or a
  -- record is added or removed, with the database initialized, before any purge.
  pub run-journal :
      (calls : List Made) (ds : List Difference)
      → run calls (journal 3 ds) ≡ outcome (history calls ds)
  unfolding run history
  run-journal [] ds = refl
  run-journal (m ∷ calls) ds =
      ap (λ r. r >>= run calls) (perform-outcome m.call m.initialized m.memory ds)
      ∙ elim (Option-cases (comes_to m ds)) [
        | inl q ↦ rw (q, history_ended m calls ds q) refl
        | inr (ds', q) ↦ rw (q, history_next m calls ds ds' q) (run-journal calls ds')
      ]

  -- A difference that has its two SOA records, and the records of it in the order of an IXFR.
  pub record IsComplete (d : Difference) : Type 0 where
    pub soamin : Rr
    pub soaplus : Rr
    pub has_soamin : last_soa none d.removed ≡ some soamin
    pub has_soaplus : last_soa none d.added ≡ some soaplus

  abbrev pub listed : (d : Difference) → IsComplete d → List Rr
  listed d c = c.soamin ∷ nonsoa Rr is_soa d.removed ++ c.soaplus ∷ nonsoa Rr is_soa d.added

  -- The oldest of the first differences first.
  abbrev pub sequence : ℕ → (ds : List Difference) → All IsComplete ds → List Rr
  sequence zero ds a = []
  sequence (suc n) [] a = []
  sequence (suc n) (d ∷ ds) a = sequence n ds a.1 ++ listed d a.0

  part_print-ok :
      (d : Difference) (c : IsComplete d)
      → part_print Rr is_soa (some (part_of d)) ≡ ok (listed d c)
  unfolding part_print
  part_print-ok d c = rw (c.has_soamin, c.has_soaplus) refl

  part_print-none : part_print Rr is_soa none ≡ ok []
  unfolding part_print
  part_print-none = refl

  -- Printed from the journal of complete differences, the last three come in the order in which they
  -- were made, each as an IXFR has it: the old SOA, what was removed, the new SOA, what was added.
  ixfr_print-journal :
      (ds : List Difference) (a : All IsComplete ds)
      → ixfr_print Rr is_soa (journal 3 ds) ≡ ok (sequence 3 ds a)
  unfolding ixfr_print print_loop
  ixfr_print-journal [] a = rw part_print-none refl
  ixfr_print-journal (d ∷ []) a =
      rw (part_print-none, part_print-ok d a.0) (ap (λ r. ok r) (append-nil (listed d a.0)))
  ixfr_print-journal (d ∷ e ∷ []) a =
      rw (part_print-none, part_print-ok d a.0, part_print-ok e a.1.0)
        (ap (λ r. ok (listed e a.1.0 ++ r)) (append-nil (listed d a.0)))
  ixfr_print-journal (d ∷ e ∷ f ∷ ds) a =
      rw (part_print-ok d a.0, part_print-ok e a.1.0, part_print-ok f a.1.1.0)
        (ap (λ r. ok (listed f a.1.1.0 ++ (listed e a.1.0 ++ r))) (append-nil (listed d a.0))
          ∙ ap (λ r. ok r) (sym (append_assoc (listed f a.1.1.0) (listed e a.1.0) (listed d a.0))))
