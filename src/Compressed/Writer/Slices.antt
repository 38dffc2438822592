-- ===== src/Compressed/Writer/Slices.antt =====
-- trace/compressed_writer.rs: parts of the stream, and where they lie in the ring buffer.
use rd.Prelude.{
  ℕ, zero, suc, ◌+◌, ◌-◌, ◌%◌, ◌≤◌, ◌<◌, ltb, leb, Bool-cases, true, ◌&&◌, ◌∷◌, ◌++◌, length, ◌≡◌,
  ◌≢◌, refl, sym, ap, ◌∙◌, arith, inl, inr,
}
use native.Mathlib.Nat.{suc-add, mod-lt, mod-eq_of_lt, mod-add-mod, mod-eq-sub-mod}
use rd.Compressed.Writer.State.{update, slice}
use rd.Compressed.Writer.Produce.{buffer_len, copied}

pub slice-append : (f : ℕ → ℕ) (a n m : ℕ) → slice f a n ++ slice f (a + n) m ≡ slice f a (n + m)
unfolding slice
slice-append f a zero m = ground arith
slice-append f a (suc n) m = rw suc-add (
    ap (λ l. f a ∷ l)
      (ap (λ c. slice f (suc a) n ++ slice f c m) (omega arith) ∙ slice-append f (suc a) n m))

pub length-slice : (f : ℕ → ℕ) (a n : ℕ) → length (slice f a n) ≡ n
unfolding slice
length-slice f a zero = refl
length-slice f a (suc n) = ap suc (length-slice f (suc a) n)

pub slice-same :
    (f g : ℕ → ℕ) (a c n : ℕ)
    → ((k : ℕ) → k < n → f (a + k) ≡ g (c + k))
    → slice f a n ≡ slice g c n
unfolding slice
slice-same f g a c zero h = refl
slice-same f g a c (suc n) h =
    ap (λ x. x ∷ slice f (suc a) n) (ground (arith, h 0))
    ∙ ap (λ l. g c ∷ l) (slice-same f g (suc a) (suc c) n (λ k less. grind (arith, h (suc k))))

pub mod-add_of_lt : (a k m : ℕ) → a % m + k < m → (a + k) % m ≡ a % m + k
mod-add_of_lt a k m h = sym (mod-add-mod a m k) ∙ mod-eq_of_lt h

-- Two places less than a turn apart are not the same place of the ring.
pub mod-apart : (p q m : ℕ) → p < q → q < p + m → p % m ≢ q % m
mod-apart p q m less near same = elim (Bool-cases (ltb (p % m + (q - p)) m)) [
  | inl e ↦
      let sum = mod-add_of_lt p (q - p) m (ground arith) in
      let there : p + (q - p) ≡ q = omega arith in
      let same_place : q % m ≡ p % m + (q - p) = sym (ap (λ x. x % m) there) ∙ sum in omega arith
  | inr e ↦
      let start = mod-lt p {m = m} (omega arith) in
      let there : p + (q - p) ≡ q = omega arith in
      let sum : (p % m + (q - p)) % m ≡ q % m = mod-add-mod p m (q - p) ∙ ap (λ x. x % m) there in
      let over : m ≤ p % m + (q - p) = ground arith in
      let turn = mod-eq-sub-mod {n = p % m + (q - p)} {m = m} over in
      let left : (p % m + (q - p) - m) % m ≡ p % m + (q - p) - m = mod-eq_of_lt (omega arith) in
      omega arith
]

pub update_same {ℓ} : {A : Type ℓ} (i : ℕ) (a : A) (f : ℕ → A) → update i a f i ≡ a
unfolding update
update_same i a f = ground arith

pub update_other {ℓ} : {A : Type ℓ} (i j : ℕ) (a : A) (f : ℕ → A) → i ≢ j → update i a f j ≡ f j
unfolding update
update_other i j a f h = ground arith

module _ (block_size num_threads : ℕ) where
  abbrev len : ℕ
  len = buffer_len block_size num_threads

  pub copied_new :
      (stream buffer : ℕ → ℕ) (pos amount k : ℕ)
      → amount ≤ len - pos % len
      → k < amount
      → copied block_size num_threads stream pos amount buffer ((pos + k) % len) ≡ stream (pos + k)
  unfolding copied
  copied_new stream buffer pos amount k fits less =
      let place : (pos + k) % len ≡ pos % len + k = mod-add_of_lt pos k len (omega arith) in
      let back : pos % len + k - pos % len ≡ k = omega arith in
      let low : leb (pos % len) (pos % len + k) ≡ true = ground arith in
      let high : ltb (pos % len + k) (pos % len + amount) ≡ true = ground arith in
      rw place (simp (low, high, back) refl)

  pub copied_old :
      (stream buffer : ℕ → ℕ) (pos amount p : ℕ)
      → amount ≤ len - pos % len
      → p < pos
      → pos + amount ≤ p + len
      → copied block_size num_threads stream pos amount buffer (p % len) ≡ buffer (p % len)
  unfolding copied
  copied_old stream buffer pos amount p fits less near =
      elim (Bool-cases (leb (pos % len) (p % len) && ltb (p % len) (pos % len + amount))) [
        | inl e ↦
            let k = p % len - pos % len in
            let place : (pos + k) % len ≡ pos % len + k = mod-add_of_lt pos k len (ground arith) in
            absurd (mod-apart p (pos + k) len (ground arith) (ground arith) (ground arith))
        | inr e ↦ simp e refl
      ]
