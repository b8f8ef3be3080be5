-- ===== src/Error/Message.antt =====
-- The bound on public error messages.
use watchbound.Base.{
  ℕ, zero, suc, ◌≤◌, ◌<◌, ◌≡◌, refl, sym, true, false, List, [], ◌∷◌, ◌++◌, arith, length, inl, inr,
  Bool-cases, append-nil, if◌then◌else◌, leb, leb→le, leb-false→lt,
}
use watchbound.Error.{
  is_char_boundary, boundary_below, truncate, bounded_message, max_error_message_bytes,
}

-- `r` is the longest prefix of `m` within the bound that ends between two characters.
pub record IsBoundedPrefix (m r : List ℕ) : Type 0 where
  pub rest : List ℕ
  pub prefix : m ≡ r ++ rest
  pub bounded : length r ≤ max_error_message_bytes
  pub on_boundary : is_char_boundary m (length r) ≡ true
  pub longest :
      (n : ℕ)
      → length r < n
      → n ≤ length m
      → n ≤ max_error_message_bytes
      → is_char_boundary m n ≡ false

zero-boundary : (m : List ℕ) → is_char_boundary m 0 ≡ true
unfolding is_char_boundary
zero-boundary m = ground arith

length-boundary : (m : List ℕ) → is_char_boundary m (length m) ≡ true
unfolding is_char_boundary
length-boundary m = ground arith

boundary_below_step :
    (m : List ℕ) (n : ℕ)
    → boundary_below m (suc n) ≡ (if is_char_boundary m (suc n) then suc n else boundary_below m n)
unfolding boundary_below
boundary_below_step m n = refl

boundary_below-zero : (m : List ℕ) → boundary_below m 0 ≡ 0
unfolding boundary_below
boundary_below-zero m = refl

boundary_below_found :
    (m : List ℕ) (n : ℕ)
    → (boundary_below m n ≤ n) × (is_char_boundary m (boundary_below m n) ≡ true)
boundary_below_found m zero = rw (boundary_below-zero m) (omega arith, zero-boundary m)
boundary_below_found m (suc n) = ground (arith, boundary_below_step m n, boundary_below_found m n)

boundary_below_greatest :
    (m : List ℕ) (n k : ℕ) → boundary_below m n < k → k ≤ n → is_char_boundary m k ≡ false
boundary_below_greatest m zero k h l = absurd (omega arith)
boundary_below_greatest m (suc n) k h l = elim (Bool-cases (is_char_boundary m (suc n))) [
  | inl at ↦ absurd (ground (arith, boundary_below_step m n))
  | inr off ↦ ground (arith, boundary_below_step m n, boundary_below_greatest m n k)
]

remainder :
    (n : ℕ) (m : List ℕ)
    → n ≤ length m
    → (rest : List ℕ) × (m ≡ truncate n m ++ rest) × (length (truncate n m) ≡ n)
remainder zero m h = (m, refl, refl)
remainder (suc n) [] h = absurd (omega arith)
remainder (suc n) (b ∷ m) h =
    let (rest, e, l) = remainder n m (omega arith) in (rest, ground arith, omega arith)

-- A message within the bound is kept; a longer one is cut to its longest prefix within 1024 bytes
-- that splits no character.
pub bounded_message-IsBoundedPrefix : (m : List ℕ) → IsBoundedPrefix m (bounded_message m)
unfolding bounded_message
bounded_message-IsBoundedPrefix m = elim (Bool-cases (leb (length m) max_error_message_bytes)) [
  | inl short ↦
      rw (short, bounded_message)
        (record {
          rest = [];
          prefix = sym (append-nil m);
          bounded = leb→le _ _ short;
          on_boundary = length-boundary m;
          longest = λ n h k l. absurd (omega arith);
        })
  | inr long ↦
      let found = boundary_below_found m max_error_message_bytes in
      let (rest, e, l) =
        remainder (boundary_below m max_error_message_bytes) m
          (omega (arith, found, leb-false→lt _ _ long)) in
      rw (long, bounded_message)
        (record {
          rest = rest;
          prefix = e;
          bounded = rw l found.0;
          on_boundary = rw l found.1;
          longest = λ n h k b. boundary_below_greatest m max_error_message_bytes n (rw (← l) h) b;
        })
]
