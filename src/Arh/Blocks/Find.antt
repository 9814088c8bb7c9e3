-- ===== src/Arh/Blocks/Find.antt =====
-- ardain/src/arh_ext.rs: what `find_free_space` returns is free.
use ard_tools.Base.{
  ℕ, suc, ◌+◌, ◌-◌, ◌*◌, ◌%◌, ◌/◌, ◌^◌, ◌≤◌, ◌<◌, ◌≡◌, ◌≢◌, inl, inr, refl, sym, ◌∙◌, ap, some,
  List, [], ◌∷◌, arith, ltb, leb, if◌then◌else◌, ℕ_discrete, Bool-cases, Option-cases, Run-cases,
  All, Run, ok, err, panic,
}
use ard_tools.Bits.{bit, complement, bit-zero, leading_zeros, trailing_zeros}
use ard_tools.Bits.Zeros.{
  leading_zeros-le, trailing_zeros-le, leading_zeros_clear, trailing_zeros_clear,
}
use ard_tools.Arh.Blocks.{slot_at, scan_slot, find_in_slot, find_loop, max_slot}
use ard_tools.Arh.Blocks.Mark.{occupied_at}
use ard_tools.Arh.Blocks.Scan.{Scanned-free, scan_slot_sound, mask_at}

abbrev pub IsFree : List ℕ → ℕ → ℕ → Type 0
IsFree blocks a b = (k : ℕ) → a ≤ k → k < b → occupied_at blocks k ≡ 0

-- The blocks of slot `i`, from its bits.
abbrev IsSlot : List ℕ → ℕ → ℕ → Type 0
IsSlot blocks i slot = slot_at blocks i ≡ slot

module _ (blocks : List ℕ) (i slot : ℕ) (here : IsSlot blocks i slot) where
  occupied_in_slot : (k : ℕ) → k < 64 → occupied_at blocks (i * 64 + k) ≡ bit slot (63 - k)
  occupied_in_slot k h =
      let item : (i * 64 + k) / 64 ≡ i = omega arith in
      let inner : (i * 64 + k) % 64 ≡ k = omega arith in rw (item, inner, here)

  -- A run of clear bits is a run of free blocks.
  IsFree-of_bits :
      (a b : ℕ)
      → i * 64 ≤ a
      → b ≤ i * 64 + 64
      → ((k : ℕ) → k < 64 → a ≤ i * 64 + k → i * 64 + k < b → bit slot (63 - k) ≡ 0)
      → IsFree blocks a b
  IsFree-of_bits a b lo hi clear k h h' =
      let at : k ≡ i * 64 + (k - i * 64) = omega arith in
      let inner : k - i * 64 < 64 = omega arith in
      rw at
        (occupied_in_slot (k - i * 64) inner ∙ clear (k - i * 64) inner (omega arith) (omega arith))

  leading-IsFree : IsFree blocks (i * 64) (i * 64 + leading_zeros 64 slot)
  leading-IsFree =
      IsFree-of_bits (i * 64) (i * 64 + leading_zeros 64 slot) (omega arith)
        (omega (arith, leading_zeros-le 64 slot))
        (λ k h lo hi. leading_zeros_clear 64 slot (63 - k) (omega arith) (omega arith))

  trailing-IsFree : IsFree blocks (i * 64 + 64 - trailing_zeros 64 slot) (i * 64 + 64)
  trailing-IsFree =
      IsFree-of_bits (i * 64 + 64 - trailing_zeros 64 slot) (i * 64 + 64)
        (omega (arith, trailing_zeros-le 64 slot)) (omega arith)
        (λ k h lo hi. trailing_zeros_clear 64 slot (63 - k) (omega arith))

  zero-IsFree : slot ≡ 0 → IsFree blocks (i * 64) (i * 64 + 64)
  zero-IsFree e =
      IsFree-of_bits (i * 64) (i * 64 + 64) (omega arith) (omega arith)
        (λ k h lo hi. rw e (bit-zero (63 - k)))

  found_in_slot :
      (desired : ℕ) {r : ℕ}
      → find_in_slot slot (i * 64) desired ≡ ok r
      → (z : ℕ) × (scan_slot 64 (complement 64 slot) (2 ^ desired - 1) ≡ some z)
        × (r ≡ i * 64 + z)
        × (desired ≤ 64)
  unfolding find_in_slot
  found_in_slot desired {r} e =
      elim (Option-cases (scan_slot 64 (complement 64 slot) (2 ^ desired - 1))) [
        | inl nothing ↦ absurd (ground arith)
        | inr (z, hit) ↦ (z, hit, ground arith, ground arith)
      ]

  find_in_slot_sound :
      (desired : ℕ) {r : ℕ}
      → 0 < desired
      → slot < 2 ^ 64
      → find_in_slot slot (i * 64) desired ≡ ok r
      → IsFree blocks r (r + desired)
  find_in_slot_sound desired {r} pos word e =
      let (z, hit, place, fits) = found_in_slot desired e in
      let first : 2 ^ desired - 1 ≡ mask_at desired 0 = omega arith in
      let scanned =
        scan_slot_sound 64 (complement 64 slot) desired 0 pos (omega arith) (rw first at hit) in
      IsFree-of_bits r (r + desired) (omega arith) (omega (arith, scanned.2))
        (λ k h lo hi. Scanned-free slot desired z k word scanned (omega arith) (omega arith))

-- The code's loop, without a patch, slot by slot.
module _ (desired w : ℕ) (ws : List ℕ) (i carry start : ℕ) where
  abbrev pub loop_here : Run (Unit {0}) ℕ
  loop_here = find_loop (λ j slot. slot) desired (w ∷ ws) i carry start

  abbrev pub loop_on : ℕ → ℕ → Run (Unit {0}) ℕ
  loop_on carry' start' = find_loop (λ j slot. slot) desired ws (i + 1) carry' start'

  pub loop_full : w ≡ max_slot → loop_here ≡ loop_on 0 (i * 64 + 64)
  unfolding find_loop
  loop_full e = ground arith

  pub loop_zero :
      w ≡ 0
      → loop_here ≡ (if leb desired (carry + 64) then ok start else loop_on (carry + 64) start)
  unfolding find_loop
  loop_zero e = ground arith

  pub loop_lead : w ≢ max_slot → w ≢ 0 → desired ≤ carry + leading_zeros 64 w → loop_here ≡ ok start
  unfolding find_loop
  loop_lead f z h = ground arith

  pub loop_hit :
      (block : ℕ)
      → w ≢ max_slot
      → w ≢ 0
      → carry + leading_zeros 64 w < desired
      → find_in_slot w (i * 64) desired ≡ ok block
      → loop_here ≡ ok block
  unfolding find_loop
  loop_hit block f z h e = ground arith

  pub loop_miss :
      w ≢ max_slot
      → w ≢ 0
      → carry + leading_zeros 64 w < desired
      → find_in_slot w (i * 64) desired ≡ err tt
      → loop_here ≡ loop_on (trailing_zeros 64 w) (i * 64 + 64 - trailing_zeros 64 w)
  unfolding find_loop
  loop_miss f z h e = ground arith

  pub loop_broken :
      w ≢ max_slot
      → w ≢ 0
      → carry + leading_zeros 64 w < desired
      → find_in_slot w (i * 64) desired ≡ panic
      → loop_here ≡ panic
  unfolding find_loop
  loop_broken f z h e = ground arith

pub loop_end :
    (desired i carry start : ℕ) → find_loop (λ j slot. slot) desired [] i carry start ≡ err tt
unfolding find_loop
loop_end desired i carry start = refl

module _ (blocks : List ℕ) where
  join-IsFree : (a b c : ℕ) → IsFree blocks a b → IsFree blocks b c → IsFree blocks a c
  join-IsFree a b c f g k lo hi = elim (Bool-cases (ltb k b)) [
    | inl below ↦ f k lo (ground arith)
    | inr above ↦ g k (ground arith) hi
  ]

  shorten-IsFree : (a b c : ℕ) → c ≤ b → IsFree blocks a b → IsFree blocks a c
  shorten-IsFree a b c h f k lo hi = f k lo (omega arith)

module _ (blocks : List ℕ) (desired : ℕ) (pos : 0 < desired) where
  -- The loop keeps a run of `carry` free blocks from `start` up to its slot, and returns where as many
  -- free blocks begin as are asked for.
  pub find_loop_sound :
      (slots : List ℕ) (i carry start : ℕ) {r : ℕ}
      → ((m : ℕ) → slot_at blocks (i + m) ≡ slot_at slots m)
      → All (λ w. w < 2 ^ 64) slots
      → start + carry ≡ i * 64
      → IsFree blocks start (i * 64)
      → find_loop (λ j w. w) desired slots i carry start ≡ ok r
      → IsFree blocks r (r + desired)
  find_loop_sound [] i carry start agree words run free e = cc (loop_end desired i carry start)
  find_loop_sound (w ∷ ws) i carry start {r} agree words run free e =
      let on : (c s : ℕ)
          → s + c ≡ (i + 1) * 64
          → IsFree blocks s ((i + 1) * 64)
          → loop_on desired w ws i carry start c s ≡ ok r
          → IsFree blocks r (r + desired) =
        λ c s run' free' e'. find_loop_sound ws (i + 1) c s next words.1 run' free' e' in
      elim (ℕ_discrete w max_slot) [
        | yes full ↦
            on 0 (i * 64 + 64) (omega arith) (λ k lo hi. absurd (omega arith))
              (sym (loop_full desired w ws i carry start full) ∙ e)
        | no full ↦ elim (ℕ_discrete w 0) [
          | yes none_used ↦
              let run_free =
                join-IsFree blocks start (i * 64) (i * 64 + 64) free
                  (zero-IsFree blocks i w here none_used) in
              let step = sym (loop_zero desired w ws i carry start none_used) ∙ e in
              elim (Bool-cases (leb desired (carry + 64))) [
                | inl fits ↦
                    let at_start : r ≡ start = ground arith in
                    rw at_start (
                      shorten-IsFree blocks start (i * 64 + 64) (start + desired) (ground arith)
                        run_free)
                | inr more ↦
                    on (carry + 64) start (omega arith) (λ k lo hi. run_free k lo (omega arith))
                      (ground arith)
              ]
          | no some_used ↦ elim (Bool-cases (leb desired (carry + leading_zeros 64 w))) [
            | inl fits ↦
                let step =
                  sym (loop_lead desired w ws i carry start full some_used (ground arith)) ∙ e in
                let at_start : r ≡ start = ground arith in
                let lead =
                  join-IsFree blocks start (i * 64) (i * 64 + leading_zeros 64 w) free
                    (leading-IsFree blocks i w here) in
                rw at_start (
                  shorten-IsFree blocks start (i * 64 + leading_zeros 64 w) (start + desired)
                    (ground arith) lead)
            | inr more ↦
                let short : carry + leading_zeros 64 w < desired = ground arith in
                elim (Run-cases (find_in_slot w (i * 64) desired)) [
                  | inl (block, hit) ↦
                      let step =
                        sym (loop_hit desired w ws i carry start block full some_used short hit)
                        ∙ e in
                      let at_block : r ≡ block = ground arith in
                      rw at_block (find_in_slot_sound blocks i w here desired pos words.0 hit)
                  | inr (inl (_, miss)) ↦
                      on (trailing_zeros 64 w) (i * 64 + 64 - trailing_zeros 64 w)
                        (omega (arith, trailing_zeros-le 64 w))
                        (λ k lo hi. trailing-IsFree blocks i w here k lo (omega arith))
                        (sym (loop_miss desired w ws i carry start full some_used short miss) ∙ e)
                  | inr (inr broken) ↦
                      cc (loop_broken desired w ws i carry start full some_used short broken)
                ]
          ]
        ]
      ]
    where
      here : IsSlot blocks i w
      here = ap (slot_at blocks) (omega arith) ∙ agree 0

      next : (m : ℕ) → slot_at blocks (i + 1 + m) ≡ slot_at ws m
      next m = ap (slot_at blocks) (omega arith) ∙ agree (suc m)
