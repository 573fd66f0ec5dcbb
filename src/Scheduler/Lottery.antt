-- ===== src/Scheduler/Lottery.antt =====
-- The ticket lottery: who is drawn, and on how many of the numbers.
use native.Mathlib.Nat.{zero-add, mod-lt}
use Prim.Native.Nat.{bit_xor}
use continuum_os.Common.{
  ℕ, zero, suc, ◌+◌, ◌*◌, ◌/◌, ◌%◌, ◌^◌, ◌≤◌, ◌<◌, ◌≡◌, ◌≢◌, ◌↔◌, refl, ap, ◌∙◌, List, [], ◌∷◌,
  Option, none, some, Bool, true, false, arith, get_or, if◌then◌else◌, Bool-cases, inl, inr, ltb,
  ◌==◌,
}
use continuum_os.Common.Bits.{xor-lt, eq_of_xor}
use continuum_os.Process.{Process}
use continuum_os.Scheduler.{Scheduler, xorshift32, sum_tickets, draw, drawn, lottery}

module _ {E : Type 0} (test : Process E → Bool) (store : ℕ → Process E) where
  -- The tickets of the passing processes in the slots below `j`.
  unfoldable pub before : ℕ → List (Option ℕ) → ℕ
  before zero table = 0
  before (suc j) [] = 0
  before (suc j) (none ∷ table) = before j table
  before (suc j) (some a ∷ table) =
      (if test (store a) then (store a).tickets else 0) + before j table

  -- What a draw with a given winner comes to.
  pub data Drawn (table : List (Option ℕ)) (i count winner : ℕ) (r : Option (ℕ × ℕ)) : Type 0 where
    picked :
        (j a : ℕ)
        → r ≡ some (i + j, a)
        → get_or table j none ≡ some a
        → test (store a) ≡ true
        → count + before j table ≤ winner
        → winner < count + before j table + (store a).tickets
        → Drawn table i count winner r
    nobody : r ≡ none → count + sum_tickets test store table ≤ winner → Drawn table i count winner r

  pub draw-Drawn :
      (table : List (Option ℕ)) (i count winner : ℕ)
      → count ≤ winner
      → Drawn table i count winner (draw test store table i count winner)
  unfolding draw sum_tickets before
  draw-Drawn [] i count winner h = nobody refl (omega arith)
  draw-Drawn (none ∷ table) i count winner h = behind _ (draw-Drawn table (i + 1) count winner h)
    where
      behind :
          (r : Option (ℕ × ℕ))
          → Drawn table (i + 1) count winner r
          → Drawn (none ∷ table) i count winner r
      behind r (picked j a e slot ok lo hi) =
          picked (suc j) a (e ∙ ap (λ (k : ℕ). some (k, a)) (omega arith)) slot ok lo hi
      behind r (nobody e all) = nobody e all
  draw-Drawn (some a ∷ table) i count winner h = elim (Bool-cases (test (store a))) [
    | inl t ↦ elim (Bool-cases (ltb winner (count + (store a).tickets))) [
      | inl l ↦
          rw (t, l)
            (picked 0 a (ap (λ (k : ℕ). some (k, a)) (omega arith)) refl t (omega arith)
              (ground arith))
      | inr g ↦
          rw (t, g)
            (behind t _
              (draw-Drawn table (i + 1) (count + (store a).tickets) winner (ground arith)))
    ]
    | inr f ↦ rw f (skipped f _ (draw-Drawn table (i + 1) count winner h))
  ]
    where
      behind :
          test (store a) ≡ true
          → (r : Option (ℕ × ℕ)) → Drawn table (i + 1) (count + (store a).tickets) winner r
          → Drawn (some a ∷ table) i count winner r
      behind t r (picked j b e slot ok lo hi) =
          picked (suc j) b (e ∙ ap (λ (k : ℕ). some (k, b)) (omega arith)) slot ok
            (rw t (omega arith)) (rw t (omega arith))
      behind t r (nobody e all) = nobody e (rw t (omega arith))

      skipped :
          test (store a) ≡ false
          → (r : Option (ℕ × ℕ)) → Drawn table (i + 1) count winner r
          → Drawn (some a ∷ table) i count winner r
      skipped t r (picked j b e slot ok lo hi) =
          picked (suc j) b (e ∙ ap (λ (k : ℕ). some (k, b)) (omega arith)) slot ok
            (rw t (omega arith)) (rw t (omega arith))
      skipped t r (nobody e all) = nobody e (rw t (omega arith))

  pub draw_hits :
      (table : List (Option ℕ)) (i count winner j a : ℕ)
      → get_or table j none ≡ some a
      → test (store a) ≡ true
      → count + before j table ≤ winner
      → winner < count + before j table + (store a).tickets
      → draw test store table i count winner ≡ some (i + j, a)
  unfolding draw before
  draw_hits [] i count winner j a slot ok lo hi = absurd (cc)
  draw_hits (none ∷ table) i count winner zero a slot ok lo hi = absurd (cc)
  draw_hits (none ∷ table) i count winner (suc j) a slot ok lo hi =
      draw_hits table (i + 1) count winner j a slot ok lo hi
      ∙ ap (λ (k : ℕ). some (k, a)) (omega arith)
  draw_hits (some b ∷ table) i count winner zero a slot ok lo hi =
      let same : b ≡ a = cc in
      let wins : ltb winner (count + (store a).tickets) ≡ true = ground arith in
      rw (same, ok, wins) (ap (λ (k : ℕ). some (k, a)) (omega arith))
  draw_hits (some b ∷ table) i count winner (suc j) a slot ok lo hi =
      elim (Bool-cases (test (store b))) [
        | inl t ↦
            let lo' : count + ((store b).tickets + before j table) ≤ winner = rw t at lo in
            let hi' : winner < count + ((store b).tickets + before j table) + (store a).tickets =
              rw t at hi in
            let loses : ltb winner (count + (store b).tickets) ≡ false = ground arith in
            rw (t, loses)
              (draw_hits table (i + 1) (count + (store b).tickets) winner j a slot ok (omega arith)
                  (omega arith)
                ∙ ap (λ (k : ℕ). some (k, a)) (omega arith))
        | inr f ↦
            let lo' : count + (0 + before j table) ≤ winner = rw f at lo in
            let hi' : winner < count + (0 + before j table) + (store a).tickets = rw f at hi in
            rw f (
              draw_hits table (i + 1) count winner j a slot ok (omega arith) (omega arith)
              ∙ ap (λ (k : ℕ). some (k, a)) (omega arith))
      ]

module _ {E : Type 0} (test : Process E → Bool) where
  -- What a lottery with at least one ticket comes to.
  pub record Elected (s : Scheduler E) (r : Option ℕ × Scheduler E) : Type 0 where
    pub slot : ℕ
    pub proc : ℕ
    pub answer : r.0 ≡ some proc
    pub at_slot : get_or s.process_table slot none ≡ some proc
    pub passes : test (s.processes proc) ≡ true
    pub state : r.1 ≡ record s {
      xorshift32_state = xorshift32 s.xorshift32_state;
      current_process_idx = some slot;
    }

  drawn-Elected :
      (s : Scheduler E) (winner : ℕ) (r : Option (ℕ × ℕ))
      → winner < sum_tickets test s.processes s.process_table
      → Drawn test s.processes s.process_table 0 0 winner r
      → Elected s (drawn (record s { xorshift32_state = xorshift32 s.xorshift32_state }) r)
  unfolding drawn
  drawn-Elected s winner r h (picked j a e slot ok lo hi) =
      rw (e, zero-add)
        (record { slot = j; proc = a; answer = refl; at_slot = slot; passes = ok; state = refl })
  drawn-Elected s winner r h (nobody e all) = absurd (omega arith)

  -- Where some process that passes the test has a ticket, the lottery elects one that passes and
  -- stands in the table, makes its slot the current one, and changes nothing else but the state of
  -- the generator.
  pub lottery-Elected :
      (s : Scheduler E)
      → sum_tickets test s.processes s.process_table ≢ 0
      → Elected s (lottery test s)
  unfolding lottery
  lottery-Elected s h =
      let total = sum_tickets test s.processes s.process_table in
      let some_ticket : (total == 0) ≡ false = ground arith in
      rw some_ticket (
        drawn-Elected s (xorshift32 s.xorshift32_state % total) _ (mod-lt _ (omega arith)) (
          draw-Drawn test s.processes s.process_table 0 0 (xorshift32 s.xorshift32_state % total)
            (omega arith)))

  pub lottery_nobody :
      (s : Scheduler E)
      → sum_tickets test s.processes s.process_table ≡ 0
      → lottery test s ≡ (none, s)
  unfolding lottery
  lottery_nobody s h = rw h refl

module _ {E : Type 0} (test : Process E → Bool) (store : ℕ → Process E) where
  -- The slot of a process that passes wins exactly on the numbers of an interval as long as its
  -- tickets, which starts where the tickets of the slots below it end.
  pub draw_share :
      (table : List (Option ℕ)) (j a winner : ℕ)
      → get_or table j none ≡ some a
      → test (store a) ≡ true
      → (draw test store table 0 0 winner ≡ some (j, a)) ↔ (
          (before test store j table ≤ winner)
          × (winner < before test store j table + (store a).tickets))
  draw_share table j a winner slot ok = (
    λ e. reads e (draw-Drawn test store table 0 0 winner (omega arith)),
    λ h.
        draw_hits test store table 0 0 winner j a slot ok (omega arith) (omega arith)
        ∙ ap (λ (k : ℕ). some (k, a)) (omega arith),
  )
    where
      reads :
          draw test store table 0 0 winner ≡ some (j, a)
          → Drawn test store table 0 0 winner (draw test store table 0 0 winner)
          → (before test store j table ≤ winner)
            × (winner < before test store j table + (store a).tickets)
      reads e (picked k b q s t lo hi) =
          let k_is : k ≡ j = ground arith in
          let b_is : b ≡ a = ground arith in
          (rw (← k_is) (omega arith), rw (← k_is, ← b_is) (omega arith))
      reads e (nobody q all) = absurd (cc)

  -- Every number below the sum of the tickets is a win for some slot.
  pub draw_total :
      (table : List (Option ℕ)) (winner : ℕ)
      → winner < sum_tickets test store table
      → (w : ℕ × ℕ) × (draw test store table 0 0 winner ≡ some w)
  draw_total table winner h = found _ (draw-Drawn test store table 0 0 winner (omega arith))
    where
      found :
          (r : Option (ℕ × ℕ)) → Drawn test store table 0 0 winner r → (w : ℕ × ℕ) × (r ≡ some w)
      found r (picked j a e slot ok lo hi) = ((0 + j, a), e)
      found r (nobody e all) = absurd (omega arith)

  pub sum_tickets_zero :
      (table : List (Option ℕ)) (j a : ℕ)
      → sum_tickets test store table ≡ 0
      → get_or table j none ≡ some a
      → 0 < (store a).tickets
      → test (store a) ≡ false
  unfolding sum_tickets
  sum_tickets_zero [] j a z slot t = absurd (cc)
  sum_tickets_zero (none ∷ table) zero a z slot t = absurd (cc)
  sum_tickets_zero (none ∷ table) (suc j) a z slot t = sum_tickets_zero table j a z slot t
  sum_tickets_zero (some b ∷ table) zero a z slot t = ground arith
  sum_tickets_zero (some b ∷ table) (suc j) a z slot t =
      sum_tickets_zero table j a (omega arith) slot t

abbrev IsState : ℕ → Type 0
IsState x = (x ≢ 0) × (x < 2 ^ 32)

shift13 : (x : ℕ) → IsState x → IsState (bit_xor x (x * 2 ^ 13 % 2 ^ 32))
shift13 x (ne, lt) = (
  λ e. ne (only_zero (eq_of_xor 32 x (x * 2 ^ 13 % 2 ^ 32) lt (omega arith) e)),
  xor-lt 32 x (x * 2 ^ 13 % 2 ^ 32) lt (omega arith),
)
  where
    only_zero : x ≡ x * 2 ^ 13 % 2 ^ 32 → x ≡ 0
    only_zero e = omega arith

shift17 : (x : ℕ) → IsState x → IsState (bit_xor x (x / 2 ^ 17))
shift17 x (ne, lt) = (
  λ e. ne (only_zero (eq_of_xor 32 x (x / 2 ^ 17) lt (omega arith) e)),
  xor-lt 32 x (x / 2 ^ 17) lt (omega arith),
)
  where
    only_zero : x ≡ x / 2 ^ 17 → x ≡ 0
    only_zero e = omega arith

shift5 : (x : ℕ) → IsState x → IsState (bit_xor x (x * 2 ^ 5 % 2 ^ 32))
shift5 x (ne, lt) = (
  λ e. ne (only_zero (eq_of_xor 32 x (x * 2 ^ 5 % 2 ^ 32) lt (omega arith) e)),
  xor-lt 32 x (x * 2 ^ 5 % 2 ^ 32) lt (omega arith),
)
  where
    only_zero : x ≡ x * 2 ^ 5 % 2 ^ 32 → x ≡ 0
    only_zero e = omega arith

-- From a word that is not 0 the generator goes to a word that is not 0.
pub xorshift32_nonzero : (x : ℕ) → x ≢ 0 → x < 2 ^ 32 → (xorshift32 x ≢ 0) × (xorshift32 x < 2 ^ 32)
unfolding xorshift32
xorshift32_nonzero x ne lt = shift5 _ (shift17 _ (shift13 x (ne, lt)))
