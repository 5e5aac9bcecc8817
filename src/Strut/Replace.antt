-- ===== src/Strut/Replace.antt =====
-- `Replace` of strut/mut.go. A `Mutable` is the bytes of a slice with those behind it up to its
-- capacity; `old` and `new` share no memory with it. `bytes.Index` and `bytes.Replace` of the standard
-- library are parameters; an index is `none` for -1. Lengths are below the bound of an int.
pub mod Lists
pub mod Backward
pub mod Matches
pub mod Same
pub mod Refine
mod Tests
use fun.Prelude.{
  ℕ, zero, suc, ◌+◌, ◌-◌, ◌*◌, Bool, true, false, not, ◌&&◌, ◌||◌, List, [], ◌∷◌, ◌++◌, Option,
  none, some, length, take, drop, ltb, leb, ◌==◌, if◌then◌else◌,
}
use fun.Prelude.Int.{ℤ, pos, negsuc}

module _ {A : Type 0} where
  -- `copy(s[i:], src)`, which copies as many as fit; `src` is read before anything is written.
  unfoldable pub copy_at : List A → ℕ → List A → List A
  copy_at s i src = let p = take (length s - i) src in take i s ++ (p ++ drop (i + length p) s)

-- Whether another replacement may be made after so many: `replaced < n || n < 0`.
abbrev pub room : ℤ → ℕ → Bool
room (pos k) count = ltb count k
room (negsuc k) count = true

-- `Mutable`, the slice and what is behind it in the same array
pub record Mutable (A : Type 0) : Type 0 where
  pub bytes : List A
  pub spare : List A

module _ {A : Type 0} (index : List A → List A → Option ℕ) (old new : List A) (n : ℤ) where
  -- The loop of `Replace` that counts.
  unfoldable pub count_loop : ℕ → ℕ → List A → ℕ
  count_loop zero count s = count
  count_loop (suc fuel) count [] = count
  count_loop (suc fuel) count (b ∷ s) =
      if not (room n count) then count else elim (index (b ∷ s) old) [
        | none ↦ count
        | some idx ↦ count_loop fuel (count + 1) (drop (idx + length old) (b ∷ s))
      ]

  -- The loop of `replaceInPlace` for a text as long as the old one.
  unfoldable pub same_loop : ℕ → ℕ → ℕ → List A → List A
  unfolding copy_at
  same_loop zero replaced start s = s
  same_loop (suc fuel) replaced start s =
      if not (room n replaced) then s else elim (index (drop start s) old) [
        | none ↦ s
        | some idx ↦
            same_loop fuel (replaced + 1) (idx + start + length new) (copy_at s (idx + start) new)
      ]

  -- The loop that finds the matches, of which there are `found` before `start`.
  unfoldable pub match_loop : ℕ → ℕ → ℕ → List A → List ℕ
  match_loop zero found start s = []
  match_loop (suc fuel) found start s =
      if not (room n found) then [] else elim (index (drop start s) old) [
        | none ↦ []
        | some idx ↦ (start + idx) ∷ match_loop fuel (found + 1) (start + (idx + length old)) s
      ]

-- What the loop backward through the matches changes.
pub record Shifting (A : Type 0) : Type 0 where
  pub text : List A
  pub write_pos : ℕ
  pub read_pos : ℕ

module _ {A : Type 0} (old new : List A) where
  -- The round for the match at `match_pos`.
  unfoldable pub shift_round : ℕ → Shifting A → Shifting A
  unfolding copy_at
  shift_round match_pos t =
      let copy_len = t.read_pos - (match_pos + length old) in
      let write_pos = t.write_pos - copy_len in
      let read_pos = t.read_pos - copy_len in
      let text = copy_at t.text write_pos (take copy_len (drop read_pos t.text)) in
      let write_pos = write_pos - length new in
      record {
        text = copy_at text write_pos new;
        write_pos = write_pos;
        read_pos = read_pos - length old;
      }

  -- The rounds for these matches, the last first.
  unfoldable pub shift_all : List ℕ → Shifting A → Shifting A
  unfolding shift_round
  shift_all [] t = t
  shift_all (m ∷ ms) t = shift_round m (shift_all ms t)

module _ {A : Type 0} (index : List A → List A → Option ℕ)
    (bytes_replace : List A → List A → List A → ℤ → List A) where
  -- `replaceInPlace`, for a slice with what is behind it
  unfoldable pub replace_in_place : Mutable A → List A → List A → ℤ → ℕ → Mutable A
  unfolding copy_at same_loop match_loop shift_all
  replace_in_place mut old new n new_len =
      let s = mut.bytes in
      let fuel = suc (length s) in
      if length old == length new
      then record mut { bytes = same_loop index old new n fuel 0 0 s }
      else (let whole = mut.bytes ++ mut.spare in
          let start : Shifting A = record {
            text = take new_len whole;
            write_pos = new_len;
            read_pos = length s;
          } in
          let t = shift_all old new (match_loop index old new n fuel 0 0 s) start in
          record {
            bytes = if ltb 0 t.read_pos then copy_at t.text 0 (take t.read_pos t.text) else t.text;
            spare = drop new_len whole;
          })

  -- `mut.Replace(old, new, n)`
  unfoldable pub replace : Mutable A → List A → List A → ℤ → Mutable A
  unfolding count_loop replace_in_place
  replace mut old new n =
      let s = mut.bytes in
      let count = count_loop index old new n (suc (length s)) 0 s in
      let new_len = length s + count * length new - count * length old in
      if not (room n 0) || length old == 0
      then mut
      else if count == 0
      then mut
      else if leb (length old) (length new) && leb new_len (length s + length mut.spare)
      then replace_in_place mut old new n new_len
      else record { bytes = bytes_replace s old new n; spare = [] }
