-- ===== src/Store/Safety.antt =====
-- The name of a blob's file: it names no other directory.
use agent_memory_living_memo.Prelude.{
  ℕ, zero, suc, true, false, ◌&&◌, ◌||◌, List, [], ◌∷◌, ◌++◌, Text, Text_eq, ◌==◌, All, All-append,
  all_of, take, drop, length, nat_eq, is_empty, Bool-cases, ◌≡◌, refl, ap, sym, ◌∙◌, subst, inl,
  inr, arith, and_true,
}
use agent_memory_living_memo.Prelude.Results.{done, test-done, done_injective}
use agent_memory_living_memo.Schema.Host.Error.{value_error}
use agent_memory_living_memo.Store.Blobs.{is_hex, is_sha256_hex, blob_path}

-- neither `.` nor `/`
abbrev pub IsPlainChar : ℕ → Type 0
IsPlainChar c = (nat_eq c 46 ≡ false) × (nat_eq c 47 ≡ false)

all_of_hex : (s : Text) → all_of is_hex s ≡ true → All IsPlainChar s
unfolding all_of
all_of_hex [] h = tt
all_of_hex (c ∷ s) h = ((ground (arith, h), ground (arith, h)), all_of_hex s (ground (arith, h)))

take-drop {ℓ} : {A : Type ℓ} (n : ℕ) (xs : List A) → take n xs ++ drop n xs ≡ xs
unfolding take drop
take-drop zero xs = refl
take-drop (suc n) [] = refl
take-drop (suc n) (x ∷ xs) = ap (◌∷◌ x) (take-drop n xs)

end_of_line : (s : Text) → (s == []) || (s == 10 ∷ []) ≡ true → All IsPlainChar s
end_of_line s h = elim (Bool-cases (s == [])) [
  | inl e ↦ rw ((Text_eq.same_iff s []).0 e) tt
  | inr e ↦ rw ((Text_eq.same_iff s (10 ∷ [])).0 (ground (arith, e, h))) ((refl, refl), tt)
]

sha256_hex_plain : (s : Text) → is_sha256_hex s ≡ true → All IsPlainChar s
unfolding is_sha256_hex
sha256_hex_plain s h =
    let (front, line) =
      and_true (nat_eq (length (take 64 s)) 64 && all_of is_hex (take 64 s))
        ((drop 64 s == []) || (drop 64 s == 10 ∷ [])) h in
    let (count, hex) =
      and_true (nat_eq (length (take 64 s)) 64) (all_of is_hex (take 64 s)) front in
    subst (All IsPlainChar) (take-drop 64 s) (
      All-append IsPlainChar (take 64 s) (drop 64 s) (all_of_hex (take 64 s) hex)
        (end_of_line (drop 64 s) line))

-- a digest is no empty text
pub sha256_hex_filled : (s : Text) → is_sha256_hex s ≡ true → is_empty s ≡ false
unfolding is_sha256_hex is_empty take drop all_of
sha256_hex_filled [] h = cc
sha256_hex_filled (c ∷ s) h = refl

-- The path of a blob that is accepted has its file's first two characters for the directory, and no
-- character of the file's name is a dot or a slash, whatever reference a memory holds.
pub blob_path_plain :
    (sha : Text) {directory name : Text}
    → blob_path sha ≡ done (directory, name)
    → (name ≡ sha) × (directory ≡ take 2 name) × All IsPlainChar name
unfolding blob_path
blob_path_plain sha {directory} {name} h =
    let (hex, same) = test-done (is_sha256_hex sha) (done (take 2 sha, sha)) value_error h in
    let path : (take 2 sha, sha) ≡ (directory, name) = done_injective same in
    let e : sha ≡ name = ap (λ p. p.1) path in
    (
      sym e,
      sym (ap (λ p. p.0) path) ∙ ap (take 2) e,
      subst (All IsPlainChar) e (sha256_hex_plain sha hex),
    )
