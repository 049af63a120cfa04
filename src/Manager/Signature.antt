-- ===== src/Manager/Signature.antt =====
-- src/manager.rs: signing the user context and checking a signature in constant time. The HMAC
-- library is the parameter `hmac`, which maps a secret and a text to the hexadecimal digest.
use yh_extension_manager_v.Prelude.{
  ℕ, zero, suc, ◌+◌, ◌*◌, ◌/◌, ◌%◌, ◌^◌, ◌<◌, ◌≡◌, refl, sym, String, ◌<>◌, Bool, true, ◌&&◌, List,
  [], ◌∷◌, ◌↔◌, All, length, nat_eq, arith, if◌then◌else◌,
}
use yh_extension_manager_v.Prelude.Int.{ℤ}
use yh_extension_manager_v.Text.Decimal.{show_int}
use yh_extension_manager_v.Text.Utf8.{bytes, bytes-IsByte, IsByte}
use yh_extension_manager_v.World.{PluginRuntimeManager}

-- `a ^ b` and `a | b` on integers of `w` bits, bit by bit
unfoldable pub xor : ℕ → ℕ → ℕ → ℕ
xor zero a b = 0
xor (suc w) a b = (a + b) % 2 + 2 * xor w (a / 2) (b / 2)

unfoldable pub bit_or : ℕ → ℕ → ℕ → ℕ
bit_or zero a b = 0
bit_or (suc w) a b = (if nat_eq (a % 2 + b % 2) 0 then 0 else 1) + 2 * bit_or w (a / 2) (b / 2)

-- `a.zip(b).fold(acc, |acc, (a, b)| acc | (a ^ b))`
unfoldable pub fold_difference : ℕ → List ℕ → List ℕ → ℕ
unfolding xor bit_or
fold_difference acc [] ys = acc
fold_difference acc (x ∷ xs) [] = acc
fold_difference acc (x ∷ xs) (y ∷ ys) = fold_difference (bit_or 8 acc (xor 8 x y)) xs ys

module _ (hmac : String → String → String) where
  unfoldable pub sign_user_context : PluginRuntimeManager → String → String → ℤ → String
  sign_user_context manager user_id username role_id =
      hmac manager.host_api_secret (user_id <> ":" <> username <> ":" <> show_int role_id)

  unfoldable pub verify_user_context_signature :
      PluginRuntimeManager → String → String → ℤ → String → Bool
  unfolding sign_user_context fold_difference
  verify_user_context_signature manager user_id username role_id signature =
      let expected = bytes (sign_user_context manager user_id username role_id) in
      nat_eq (length expected) (length (bytes signature))
      && nat_eq (fold_difference 0 expected (bytes signature)) 0

xor-zero : (w a b : ℕ) → a < 2 ^ w → b < 2 ^ w → xor w a b ≡ 0 → a ≡ b
unfolding xor
xor-zero zero a b ha hb h = omega arith
xor-zero (suc w) a b ha hb h = ground (arith, xor-zero w (a / 2) (b / 2))

xor_self : (w a : ℕ) → xor w a a ≡ 0
unfolding xor
xor_self zero a = refl
xor_self (suc w) a = ground (arith, xor_self w (a / 2))

bit_or-zero : (w a b : ℕ) → a < 2 ^ w → b < 2 ^ w → bit_or w a b ≡ 0 → (a ≡ 0) × (b ≡ 0)
unfolding bit_or
bit_or-zero zero a b ha hb h = ground arith
bit_or-zero (suc w) a b ha hb h = ground (arith, bit_or-zero w (a / 2) (b / 2))

bit_or-bound : (w a b : ℕ) → bit_or w a b < 2 ^ w
unfolding bit_or
bit_or-bound zero a b = omega arith
bit_or-bound (suc w) a b = ground (arith, bit_or-bound w (a / 2) (b / 2))

xor-bound : (w a b : ℕ) → xor w a b < 2 ^ w
unfolding xor
xor-bound zero a b = omega arith
xor-bound (suc w) a b = ground (arith, xor-bound w (a / 2) (b / 2))

bit_or-zeros : bit_or 8 0 0 ≡ 0
unfolding bit_or
bit_or-zeros = refl

fold_difference-zero :
    (acc : ℕ) (xs ys : List ℕ)
    → acc < 256
    → All IsByte xs
    → All IsByte ys
    → length xs ≡ length ys
    → fold_difference acc xs ys ≡ 0
    → (acc ≡ 0) × (xs ≡ ys)
unfolding fold_difference
fold_difference-zero acc [] [] ha hx hy e h = (h, refl)
fold_difference-zero acc [] (y ∷ ys) ha hx hy e h = ground arith
fold_difference-zero acc (x ∷ xs) [] ha hx hy e h = ground arith
fold_difference-zero acc (x ∷ xs) (y ∷ ys) ha (hx, hxs) (hy, hys) e h =
    let (d, tails) =
      fold_difference-zero (bit_or 8 acc (xor 8 x y)) xs ys (bit_or-bound 8 acc (xor 8 x y)) hxs hys
        (omega arith) h in
    let (z, same) = bit_or-zero 8 acc (xor 8 x y) ha (xor-bound 8 x y) d in
    (z, cc (xor-zero 8 x y hx hy same, tails))

accepted_bytes :
    (xs ys : List ℕ)
    → All IsByte xs
    → All IsByte ys
    → (nat_eq (length xs) (length ys) && nat_eq (fold_difference 0 xs ys) 0) ≡ true
    → xs ≡ ys
accepted_bytes xs ys hx hy h = ground (arith, fold_difference-zero 0 xs ys (omega arith) hx hy)

fold_difference_self : (xs : List ℕ) → fold_difference 0 xs xs ≡ 0
unfolding fold_difference
fold_difference_self [] = refl
fold_difference_self (x ∷ xs) = rw (xor_self, bit_or-zeros) (fold_difference_self xs)

equal_bytes :
    (xs ys : List ℕ)
    → xs ≡ ys
    → (nat_eq (length xs) (length ys) && nat_eq (fold_difference 0 xs ys) 0) ≡ true
equal_bytes xs ys e = rw (sym e) (ground (arith, fold_difference_self xs))

module _ (hmac : String → String → String) where
  -- A signature is accepted exactly if its bytes are those of the signature that the manager
  -- itself makes for the same user, name and role: the constant-time comparison neither accepts
  -- another text nor refuses this one.
  pub verify_user_context_signature_iff :
      (m : PluginRuntimeManager) (user_id username : String) (role_id : ℤ) (signature : String)
      → (verify_user_context_signature hmac m user_id username role_id signature ≡ true)
        ↔ (bytes (sign_user_context hmac m user_id username role_id) ≡ bytes signature)
  unfolding verify_user_context_signature
  verify_user_context_signature_iff m u n r s =
      (accepted_bytes _ _ (bytes-IsByte _) (bytes-IsByte s), equal_bytes _ _)
