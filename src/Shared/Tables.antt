-- ===== src/Shared/Tables.antt =====
-- Total tables over numbers, such as descriptors or addresses, with one entry changed.
use runes.Shared.{ℕ, ◌≡◌, ◌≢◌, true, false, ◌==◌, arith, if◌then◌else◌}

module _ {ℓ} {A : Type ℓ} where
  abbrev pub put : ℕ → A → (ℕ → A) → ℕ → A
  put i v f n = if n == i then v else f n

  pub put_same : (i : ℕ) (v : A) (f : ℕ → A) → put i v f i ≡ v
  put_same i v f = let e : (i == i) ≡ true = ground arith in rw e

  pub put_other : (i n : ℕ) (v : A) (f : ℕ → A) → n ≢ i → put i v f n ≡ f n
  put_other i n v f h = let e : (n == i) ≡ false = ground arith in rw e
