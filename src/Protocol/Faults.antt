-- ===== src/Protocol/Faults.antt =====
-- The readers of src/protocol.c on malformed input: where they refuse it, and where they run into
-- undefined behaviour.
use runes.Shared.{
  ℕ, zero, suc, ◌+◌, ◌^◌, ◌<◌, ◌≡◌, ◌≢◌, ◌⊎◌, inl, inr, refl, ◌∷◌, ◌++◌, drop, arith, length, take,
  drop, leb, if◌then◌else◌,
}
use runes.Protocol.Message.{
  Bytes, Outcome, ok, fail, fault, Fault, read_past_end, use_after_free, size_sub, or_else, ◌>>=◌,
}
use runes.Protocol.Store.{htonl}
use runes.Protocol.Load.{ntohl, load_u32, copy_out, load_str, load_strs, load_strvec}
use runes.Protocol.Wire.{load_u32-htonl, drop-htonl}

-- A string that declares n bytes, in a buffer whose true size is known, is read if they are there,
-- and refused if n is more than the whole buffer. The up to four sizes in between pass the check,
-- which forgets the size field, and read past the end of the buffer.
pub load_str_cases :
    (n : ℕ) (rest : Bytes)
    → n + 1 < 2 ^ 32
    → load_str (htonl n ++ rest) (4 + length rest) ≡ (
        if leb n (length rest)
        then ok (take n rest, 4 + n)
        else if leb n (4 + length rest)
        then fault read_past_end
        else fail)
unfolding load_str copy_out
load_str_cases n rest h = ground (arith, load_u32-htonl n rest (4 + length rest), drop-htonl n rest)

bind-ne-fail {ℓ κ} :
    {A : Type ℓ} {B : Type κ} (m : Outcome A) (f : A → Outcome B)
    → m ≢ fail
    → ((a : A) → f a ≢ fail)
    → (m >>= f) ≢ fail
bind-ne-fail (ok a) f h k e = k a e
bind-ne-fail fail f h k e = h refl
bind-ne-fail (fault u) f h k e = cc

or_else-ne-fail {ℓ} : {A : Type ℓ} (m : Outcome A) (u : Fault) → or_else m (fault u) ≢ fail
or_else-ne-fail (ok a) u e = cc
or_else-ne-fail fail u e = cc
or_else-ne-fail (fault v) u e = cc

load_strs-ne-fail : (k : ℕ) (buf : Bytes) (len offset : ℕ) → load_strs k buf len offset ≢ fail
unfolding load_strs
load_strs-ne-fail zero buf len offset = λ e. cc
load_strs-ne-fail (suc k) buf len offset =
    bind-ne-fail (or_else (load_str (drop offset buf) (size_sub len offset)) (fault use_after_free))
      _ (or_else-ne-fail (load_str (drop offset buf) (size_sub len offset)) use_after_free)
      λ r.
        bind-ne-fail (load_strs k buf len (offset + r.1)) _
          (load_strs-ne-fail k buf len (offset + r.1)) (λ q e. cc)

ntohl_cases : (buf : Bytes) → ((n : ℕ) × (ntohl buf ≡ ok n)) ⊎ (ntohl buf ≡ fault read_past_end)
unfolding ntohl
ntohl_cases (a ∷ b ∷ c ∷ d ∷ rest) = inl (_, refl)
ntohl_cases _ = inr refl

-- A vector is refused only for its size field: for want of one, or because it is more than the
-- size of the buffer. A bad string in a vector is never refused.
pub load_strvec_refusals :
    (buf : Bytes) (len : ℕ)
    → load_strvec buf len ≡ fail
    → (len < 4) ⊎ ((n : ℕ) × (load_u32 buf len ≡ ok (n, 4)) × (len < n))
unfolding load_strvec load_u32
load_strvec_refusals buf len e = elim (ntohl_cases buf) [
  | inl (n, r) ↦ ground (arith, load_strs-ne-fail n buf len 4)
  | inr r ↦ ground arith
]

-- A string that declares more bytes than the buffer has, first in a vector, makes the reader
-- look through the vector that it has just freed.
pub load_strvec_bad_string :
    (k n : ℕ) (rest : Bytes)
    → k < 4 + (4 + length rest)
    → k + 2 < 2 ^ 32
    → n < 2 ^ 32
    → 4 + length rest < n
    → load_strvec (htonl (suc k) ++ (htonl n ++ rest)) (4 + (4 + length rest))
      ≡ fault use_after_free
unfolding load_strvec load_strs load_str
load_strvec_bad_string k n rest h1 h2 h3 h4 = ground (
  arith,
  load_u32-htonl (suc k) (htonl n ++ rest) (4 + (4 + length rest)),
  drop-htonl (suc k) (htonl n ++ rest),
  load_u32-htonl n rest (4 + length rest),
)
