-- ===== src/Shared/Duration/Parse/Date.antt =====
-- The date of a printed duration, read by `duration_create_from_string` of
-- signer/src/shared/duration.c.
use opendnssec_workflow_test.Common.{
  ℕ, ◌^◌, ◌≤◌, ◌<◌, ◌≡◌, refl, ap, ◌∙◌, Bool, true, false, List, ◌∷◌, ◌++◌, arith, ◌==◌,
  if◌then◌else◌, length,
}
use opendnssec_workflow_test.Common.Int.{pos}
use opendnssec_workflow_test.Shared.Duration.{Duration, duration_create, has_time}
use opendnssec_workflow_test.Shared.Duration.Print.{part}
use opendnssec_workflow_test.Shared.Duration.Parse.{strchr, take_part, month_at, parse_date}
use opendnssec_workflow_test.Shared.Duration.Parse.Text.{Lacks, part-Lacks}
use opendnssec_workflow_test.Shared.Duration.Parse.Steps.{
  state, strchr-part, tail_of, t_of, month_at-found,
}
use opendnssec_workflow_test.Shared.Duration.Parse.Parts.{Lacks-append, letter_at, step}

-- A duration without weeks.
abbrev pub dated : ℕ → ℕ → ℕ → ℕ → ℕ → ℕ → Duration
dated y mo da h mi s = record {
  years = pos y;
  months = pos mo;
  weeks = pos 0;
  days = pos da;
  hours = pos h;
  minutes = pos mi;
  seconds = pos s;
}

module _ (y mo da : ℕ) (hy : y < 2 ^ 31) (hm : mo < 2 ^ 31) (hd : da < 2 ^ 31) where
  abbrev pub date_parts : List ℕ → List ℕ
  date_parts tail = part (pos y) 89 ++ (part (pos mo) 77 ++ (part (pos da) 68 ++ tail))

  abbrev pub date_of : Duration
  date_of = dated y mo da 0 0 0

  pub parse_date-parts :
      (p : List ℕ) (has_time : Bool) (time : List ℕ)
      → length p < 2 ^ 63
      → length (77 ∷ (part (pos da) 68 ++ tail_of has_time time)) ≤ length p
      → Lacks 89 (tail_of has_time time)
      → Lacks 68 (tail_of has_time time)
      → (c : ℕ) × ((b : Bool) × ((parse_date p
                (t_of has_time time)
                (state (80 ∷ date_parts (tail_of has_time time)) duration_create false)
              ≡ state (c ∷ tail_of has_time time) date_of b)
            × ((c == 87) ≡ false)))
  parse_date-parts p has_time time hp lp ly ld =
      let tail = tail_of has_time time in
      let c1 = letter_at y 89 80 in
      let c2 = letter_at mo 77 c1 in
      let c3 = letter_at da 68 c2 in
      let b1 = if y == 0 then false else true in
      let b2 = if mo == 0 then b1 else true in
      let b3 = if da == 0 then b2 else true in
      let days = part (pos da) 68 in
      let months = part (pos mo) 77 in
      let e1 =
        step (λ v d. record d { years = v }) (strchr 89) 80 y 89 (months ++ (days ++ tail))
          duration_create false (omega arith) refl refl
          (strchr-part 80 y 89 (months ++ (days ++ tail)) (omega arith) refl refl (
            Lacks-append 89 months (days ++ tail) (part-Lacks 89 77 mo refl refl)
              (Lacks-append 89 days tail (part-Lacks 89 68 da refl refl) ly))) in
      let e2 =
        step (λ v d. record d { months = v })
          (λ str. month_at p (t_of has_time time) (strchr 77 str)) c1 mo 77 (days ++ tail)
          (dated y 0 0 0 0 0) b1 (omega arith) refl refl
          (month_at-found p c1 mo days time has_time hp lp (omega arith) (ground arith)
            (part-Lacks 77 68 da refl refl)) in
      let e3 =
        step (λ v d. record d { days = v }) (strchr 68) c2 da 68 tail (dated y mo 0 0 0 0) b2
          (omega arith) refl refl
          (strchr-part c2 da 68 tail (omega arith) refl (ground arith) ld) in
      (
        c3,
        (
          b3,
          (
            ap
                  (λ s.
                    let m =
                      take_part (λ v d. record d { months = v })
                        (month_at p (t_of has_time time) (strchr 77 s.str)) s in
                    take_part (λ v d. record d { days = v }) (strchr 68 m.str) m)
                  e1
                ∙ ap (λ m. take_part (λ v d. record d { days = v }) (strchr 68 m.str) m) e2
                ∙ e3,
            ground arith,
          ),
        ),
      )
