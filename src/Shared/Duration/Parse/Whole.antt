-- ===== src/Shared/Duration/Parse/Whole.antt =====
-- `duration_create_from_string` of signer/src/shared/duration.c reads what `duration2string` writes.
use opendnssec_workflow_test.Common.{
  ℕ, ◌^◌, ◌≤◌, ◌<◌, ◌≡◌, refl, sym, ap, ◌∙◌, Bool, true, false, List, [], ◌∷◌, ◌++◌, Option, some,
  arith, ◌==◌, if◌then◌else◌, length, length-append, if_true,
}
use opendnssec_workflow_test.Common.Int.{pos}
use opendnssec_workflow_test.Common.Result.{ok}
use opendnssec_workflow_test.Common.Text.{is_digit}
use opendnssec_workflow_test.Shared.Duration.{Duration, duration_create, has_time, duration2string}
use opendnssec_workflow_test.Shared.Duration.Print.{part, text, time_mark, duration2string-text}
use opendnssec_workflow_test.Shared.Duration.Parse.{
  strchr, strrchr, take_part, minute_at, to_time, parse_date, parse_time, parse_weeks,
  duration_create_from_string,
}
use opendnssec_workflow_test.Shared.Duration.Parse.Text.{
  Lacks, strchr-Lacks, strchr-none, part-Lacks,
}
use opendnssec_workflow_test.Shared.Duration.Parse.Steps.{
  state, strchr-part, tail_of, t_of, minute_at-found,
}
use opendnssec_workflow_test.Shared.Duration.Parse.Parts.{
  Lacks-append, part_nonempty, room_behind, length-part_le, flat, tail_short, tail-Lacks,
  strchr_tail, letter_at, step,
}
use opendnssec_workflow_test.Shared.Duration.Parse.Date.{
  dated, date_parts, date_of, parse_date-parts,
}

module _ (y mo da : ℕ) (hy : y < 2 ^ 31) (hm : mo < 2 ^ 31) (hd : da < 2 ^ 31) where
  module _ (h mi s : ℕ) (hh : h < 2 ^ 31) (hi : mi < 2 ^ 31) (hs : s < 2 ^ 31) where
    abbrev time_parts : List ℕ
    time_parts = part (pos h) 72 ++ (part (pos mi) 77 ++ (part (pos s) 83 ++ []))

    parse_time-parts :
        (p : List ℕ) (b : Bool)
        → length p < 2 ^ 63
        → length (84 ∷ time_parts) ≤ length p
        → (c : ℕ) × ((b' : Bool) × ((parse_time p
                  (some (84 ∷ time_parts))
                  (state (84 ∷ time_parts) (date_of y mo da hy hm hd) b)
                ≡ state (c ∷ []) (dated y mo da h mi s) b')
              × ((c == 87) ≡ false)))
    parse_time-parts p b hp lp =
        let c1 = letter_at h 72 84 in
        let c2 = letter_at mi 77 c1 in
        let c3 = letter_at s 83 c2 in
        let b1 = if h == 0 then b else true in
        let b2 = if mi == 0 then b1 else true in
        let b3 = if s == 0 then b2 else true in
        let seconds = part (pos s) 83 ++ [] in
        let minutes = part (pos mi) 77 in
        let lacking : (ch : ℕ) → is_digit ch ≡ false → (83 == ch) ≡ false → Lacks ch seconds =
          λ ch q r. Lacks-append ch (part (pos s) 83) [] (part-Lacks ch 83 s q r) tt in
        let e1 =
          step (λ v d. record d { hours = v }) (strchr 72) 84 h 72 (minutes ++ seconds)
            (date_of y mo da hy hm hd) b (omega arith) refl refl
            (strchr-part 84 h 72 (minutes ++ seconds) (omega arith) refl refl (
              Lacks-append 72 minutes seconds (part-Lacks 72 77 mi refl refl)
                (lacking 72 refl refl))) in
        let room : (mi == 0) ≡ false → length (77 ∷ seconds) ≤ length time_parts = λ q.
          room_behind (part (pos h) 72) minutes seconds (part_nonempty mi 77 (omega arith) q) in
        let e2 =
          step (λ v d. record d { minutes = v })
            (λ str. minute_at p (some (84 ∷ time_parts)) (strrchr 77 str)) c1 mi 77 seconds
            (dated y mo da h 0 0) b1 (omega arith) refl refl
            (minute_at-found p c1 mi seconds time_parts hp lp room (omega arith) (ground arith)
              (lacking 77 refl refl)) in
        let e3 =
          step (λ v d. record d { seconds = v }) (strchr 83) c2 s 83 [] (dated y mo da h mi 0) b2
            (omega arith) refl refl (strchr-part c2 s 83 [] (omega arith) refl (ground arith) tt) in
        (
          c3,
          (
            b3,
            (
              ap
                    (λ r.
                      let m =
                        take_part (λ v d. record d { minutes = v })
                          (minute_at p (some (84 ∷ time_parts)) (strrchr 77 r.str)) r in
                      take_part (λ v d. record d { seconds = v }) (strchr 83 m.str) m)
                    e1
                  ∙ ap (λ m. take_part (λ v d. record d { seconds = v }) (strchr 83 m.str) m) e2
                  ∙ e3,
              ground arith,
            ),
          ),
        )

    -- The text, with a time or without.
    abbrev whole : Bool → List ℕ
    whole timed = 80 ∷ date_parts y mo da hy hm hd (tail_of timed time_parts)

    time_short : length time_parts ≤ 33
    time_short = omega (
      arith,
      length-append (part (pos h) 72) (part (pos mi) 77 ++ (part (pos s) 83 ++ [])),
      length-append (part (pos mi) 77) (part (pos s) 83 ++ []),
      length-append (part (pos s) 83) [],
      length-part_le h 72 (omega arith),
      length-part_le mi 77 (omega arith),
      length-part_le s 83 (omega arith),
    )

    whole_short : (timed : Bool) → length (whole timed) < 2 ^ 63
    whole_short timed =
        let tail = tail_of timed time_parts in
        omega (
          arith,
          tail_short timed time_parts time_short,
          length-append (part (pos y) 89) (part (pos mo) 77 ++ (part (pos da) 68 ++ tail)),
          length-append (part (pos mo) 77) (part (pos da) 68 ++ tail),
          length-append (part (pos da) 68) tail,
          length-part_le y 89 (omega arith),
          length-part_le mo 77 (omega arith),
          length-part_le da 68 (omega arith),
        )

    behind_short :
        (timed : Bool)
        → length (77 ∷ (part (pos da) 68 ++ tail_of timed time_parts)) ≤ length (whole timed)
    behind_short timed =
        let tail = tail_of timed time_parts in
        omega (
          arith,
          length-append (part (pos y) 89) (part (pos mo) 77 ++ (part (pos da) 68 ++ tail)),
          length-append (part (pos mo) 77) (part (pos da) 68 ++ tail),
        )

    strchr_t : (timed : Bool) → strchr 84 (whole timed) ≡ t_of timed time_parts
    strchr_t timed =
        let tail = tail_of timed time_parts in
        strchr-Lacks 84 (80 ∷ []) (date_parts y mo da hy hm hd tail) (refl, tt)
        ∙ strchr-Lacks 84 (part (pos y) 89) (part (pos mo) 77 ++ (part (pos da) 68 ++ tail))
            (part-Lacks 84 89 y refl refl)
        ∙ strchr-Lacks 84 (part (pos mo) 77) (part (pos da) 68 ++ tail)
            (part-Lacks 84 77 mo refl refl)
        ∙ strchr-Lacks 84 (part (pos da) 68) tail (part-Lacks 84 68 da refl refl)
        ∙ strchr_tail timed time_parts

    time_Lacks :
        (ch : ℕ)
        → is_digit ch ≡ false
        → (72 == ch) ≡ false
        → (77 == ch) ≡ false
        → (83 == ch) ≡ false
        → Lacks ch time_parts
    time_Lacks ch d p q r =
        Lacks-append ch (part (pos h) 72) (part (pos mi) 77 ++ (part (pos s) 83 ++ []))
          (part-Lacks ch 72 h d p)
          (Lacks-append ch (part (pos mi) 77) (part (pos s) 83 ++ []) (part-Lacks ch 77 mi d q)
            (Lacks-append ch (part (pos s) 83) [] (part-Lacks ch 83 s d r) tt))

    abbrev parse_rest : List ℕ → Option (List ℕ) → Option Duration
    parse_rest p t =
        let r = parse_time p t (to_time t (parse_date p t (state p duration_create false))) in
        parse_weeks (strchr 87 r.str) r

    -- No `W` is left.
    no_weeks :
        (c : ℕ) (d : Duration) (b : Bool)
        → (c == 87) ≡ false
        → parse_weeks (strchr 87 (c ∷ [])) (state (c ∷ []) d b) ≡ some d
    no_weeks c d b h =
        ap (λ w. parse_weeks w (state (c ∷ []) d b)) (strchr-none 87 (c ∷ []) (h, tt))

    untimed :
        has_time (dated y mo da h mi s) ≡ false → dated y mo da h mi s ≡ (date_of y mo da hy hm hd)
    untimed e =
        let zh : h ≡ 0 = ground arith in
        let zi : mi ≡ 0 = ground arith in let zs : s ≡ 0 = ground arith in rw (zh, zi, zs) refl

    parse_timed :
        (timed : Bool)
        → has_time (dated y mo da h mi s) ≡ timed
        → parse_rest (whole timed) (t_of timed time_parts) ≡ some (dated y mo da h mi s)
    parse_timed true e =
        let tail = tail_of true time_parts in
        let (c, (b, (e1, q1))) =
          parse_date-parts y mo da hy hm hd (whole true) true time_parts (whole_short true)
            (behind_short true)
            (tail-Lacks 89 true time_parts refl (time_Lacks 89 refl refl refl refl))
            (tail-Lacks 68 true time_parts refl (time_Lacks 68 refl refl refl refl)) in
        let (c', (b', (e2, q2))) =
          parse_time-parts (whole true) true (whole_short true)
            (omega (arith, behind_short true, length-append (part (pos da) 68) tail)) in
        ap
          (λ r.
            let r' = parse_time (whole true) (some tail) (to_time (some tail) r) in
            parse_weeks (strchr 87 r'.str) r')
          e1
        ∙ ap (λ r. parse_weeks (strchr 87 r.str) r) e2
        ∙ no_weeks c' (dated y mo da h mi s) b' q2
    parse_timed false e =
        let (c, (b, (e1, q1))) =
          parse_date-parts y mo da hy hm hd (whole false) false time_parts (whole_short false)
            (behind_short false) tt tt in
        ap (λ r. parse_weeks (strchr 87 r.str) r) e1
        ∙ no_weeks c (date_of y mo da hy hm hd) b q1
        ∙ ap some (sym (untimed e))

    -- The text that is printed is that text.
    text-whole :
        (timed : Bool)
        → has_time (dated y mo da h mi s) ≡ timed
        → text (dated y mo da h mi s) ≡ whole timed
    text-whole true e =
        let d = dated y mo da h mi s in
        flat (80 ∷ part (pos y) 89) (part (pos mo) 77) (part (pos da) 68) (time_mark d)
          (part (pos h) 72) (part (pos mi) 77) (part (pos s) 83)
        ∙ ap
            (λ m.
              (80 ∷ part (pos y) 89)
              ++ (part (pos mo) 77 ++ (part (pos da) 68 ++ (m ++ time_parts))))
            (if_true _ _ e)
    text-whole false e =
        ap text (untimed e)
        ∙ flat (80 ∷ part (pos y) 89) (part (pos mo) 77) (part (pos da) 68) [] [] [] []

    parse_whole :
        (timed : Bool)
        → duration_create_from_string (some (whole timed))
          ≡ parse_rest (whole timed) (strchr 84 (whole timed))
    unfolding duration_create_from_string strchr
    parse_whole timed = refl

    -- For years, months, days, hours, minutes and seconds below 2 ^ 31, and no weeks,
    -- `duration2string` gives a text, of which `duration_create_from_string` makes the same duration
    -- again.
    pub create_from_string-duration2string :
        (str : List ℕ) × ((duration2string (some (dated y mo da h mi s)) ≡ ok (some str))
          × (duration_create_from_string (some str) ≡ some (dated y mo da h mi s)))
    create_from_string-duration2string =
        let d = dated y mo da h mi s in
        let timed = has_time d in
        (
          text d,
          (
            duration2string-text d (
              omega arith,
              (
                omega arith,
                (omega arith, (omega arith, (omega arith, (omega arith, omega arith)))),
              ),
            ),
            ap (λ t. duration_create_from_string (some t)) (text-whole timed refl)
                ∙ parse_whole timed
                ∙ ap (parse_rest (whole timed)) (strchr_t timed)
                ∙ parse_timed timed refl,
          ),
        )
