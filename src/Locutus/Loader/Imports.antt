-- ===== src/Locutus/Loader/Imports.antt =====
-- Reading back a table of library names.
use topgun.Common.{
  length, ℕ, zero, suc, ◌+◌, ◌≤◌, ◌<◌, ◌≡◌, refl, ◌∙◌, ap, List, [], ◌∷◌, ◌++◌, false, leb, u8,
  update, ltb-true, ltb-false, arith,
}
use mathlib.Core.Path.{subst}
use topgun.Locutus.State.{Os2, done, pure, ◌>>=◌}
use topgun.Locutus.Loader.{Image, read_8}
use topgun.Locutus.Loader.Load.{library_table, add_module, read_name, resolve_from}

leb-false : {a b : ℕ} → b < a → leb a b ≡ false
leb-false h = ground arith

-- A table of names: each has its length before it.
abbrev pub encode_names : List (List ℕ) → List ℕ
encode_names [] = []
encode_names (name ∷ names) = length name ∷ (name ++ encode_names names)

-- The names fit the buffer.
abbrev pub Short : List (List ℕ) → Type 0
Short [] = Unit
Short (name ∷ names) = (length name ≤ 127) × Short names

-- The entries that the names take, one after another.
abbrev pub add_libraries : List (List ℕ) → Os2 → Os2
add_libraries [] s = s
add_libraries (name ∷ names) s = add_libraries names (record s {
  module_count = s.module_count + 1;
  modules =
      update s.modules (s.module_count + 1) (library_table name (s.modules (s.module_count + 1)));
})

-- The name at an index.
abbrev pub name_at : List (List ℕ) → ℕ → List ℕ
name_at [] k = []
name_at (name ∷ names) zero = name
name_at (name ∷ names) (suc k) = name_at names k

length-++ : (xs ys : List ℕ) → length (xs ++ ys) ≡ length xs + length ys
length-++ [] ys = omega arith
length-++ (x ∷ xs) ys = ground (arith, length-++ xs ys)

add_libraries-count :
    (names : List (List ℕ)) (s : Os2)
    → (add_libraries names s).module_count ≡ s.module_count + length names
add_libraries-count [] s = omega arith
add_libraries-count (name ∷ names) s = add_libraries-count names _ ∙ omega arith

add_libraries-before :
    (names : List (List ℕ)) (s : Os2) (j : ℕ)
    → j ≤ s.module_count
    → (add_libraries names s).modules j ≡ s.modules j
add_libraries-before [] s j low = refl
add_libraries-before (name ∷ names) s j low =
    add_libraries-before names _ j (omega (arith, low)) ∙ ground (arith, low)

add_libraries-at :
    (names : List (List ℕ)) (s : Os2) (k : ℕ)
    → k < length names
    → (add_libraries names s).modules (s.module_count + 1 + k)
      ≡ library_table (name_at names k) (s.modules (s.module_count + 1 + k))
add_libraries-at [] s k small = absurd (omega (arith, small))
add_libraries-at (name ∷ names) s zero small =
    let here : s.module_count + 1 + 0 ≡ s.module_count + 1 = omega arith in
    rw here (add_libraries-before names _ (s.module_count + 1) (omega arith) ∙ ground arith)
add_libraries-at (name ∷ names) s (suc k) small =
    let there : s.module_count + 1 + suc k ≡ s.module_count + 1 + 1 + k = omega arith in
    rw there (
      add_libraries-at names
        (record s {
          module_count = s.module_count + 1;
          modules =
              update s.modules (s.module_count + 1)
                (library_table name (s.modules (s.module_count + 1)));
        })
        k (omega (arith, small))
      ∙ ap (library_table (name_at names k)) (ground arith))

module _ (img : Image) where
  -- The file holds the bytes from a place on.
  abbrev pub Holds : ℕ → List ℕ → Type 0
  Holds pos [] = Unit
  Holds pos (c ∷ cs) = (pos < img.size) × (u8 (img.bytes pos) ≡ c) × Holds (pos + 1) cs

  read_8-at :
      (pos c : ℕ) (s : Os2) → pos < img.size → u8 (img.bytes pos) ≡ c → read_8 img pos s ≡ done c s
  unfolding read_8 ◌>>=◌
  read_8-at pos c s inside is_c = rw (ltb-true inside, is_c) refl

  read_name-Holds :
      (name rest : List ℕ) (pos : ℕ) (s : Os2)
      → Holds pos (name ++ rest)
      → (read_name img (length name) pos s ≡ done name s) × Holds (pos + length name) rest
  unfolding read_name ◌>>=◌
  read_name-Holds [] rest pos s holds =
      (unfold pure in refl, subst (λ p. Holds p rest) (omega arith) holds)
  read_name-Holds (c ∷ cs) rest pos s holds =
      let (reads, after) = read_name-Holds cs rest (pos + 1) s holds.2 in
      (
        rw (read_8-at pos c s holds.0 holds.1, reads) refl,
        subst (λ p. Holds p rest) (omega arith) after,
      )

  resolve_from-adds :
      (n : ℕ) (names : List (List ℕ)) (pos end : ℕ) (s : Os2)
      → Holds pos (encode_names names)
      → Short names
      → end ≡ pos + length (encode_names names)
      → end ≤ pos + n
      → s.module_count + length names ≤ 255
      → resolve_from img n pos end s ≡ done tt (add_libraries names s)
  unfolding resolve_from add_module ◌>>=◌
  resolve_from-adds zero [] pos end s holds short at enough room =
      rw (ltb-false {a = pos} {b = end} (omega (arith, at))) refl
  resolve_from-adds (suc n) [] pos end s holds short at enough room =
      rw (ltb-false {a = pos} {b = end} (omega (arith, at))) refl
  resolve_from-adds zero (name ∷ names) pos end s holds short at enough room =
      absurd (omega (arith, at, enough))
  resolve_from-adds (suc n) (name ∷ names) pos end s holds short at enough room =
      let (reads, after) = read_name-Holds name (encode_names names) (pos + 1) s holds.2 in
      let s' : Os2 = record s {
        module_count = s.module_count + 1;
        modules =
            update s.modules (s.module_count + 1)
              (library_table name (s.modules (s.module_count + 1)));
      } in
      let size : length (encode_names (name ∷ names))
          ≡ 1 + length name + length (encode_names names) =
        ap suc (length-++ name (encode_names names)) ∙ omega arith in
      let rest : resolve_from img n (pos + length name + 1) end s'
          ≡ done tt (add_libraries names s') =
        resolve_from-adds n names (pos + length name + 1) end s'
          (subst (λ p. Holds p (encode_names names)) (omega arith) after) short.1
          (omega (arith, at, size)) (omega (arith, enough)) (omega (arith, room)) in
      rw
        (
          ltb-true {a = pos} {b = end} (omega (arith, at, size)),
          read_8-at pos (length name) s holds.0 holds.1,
          ltb-false {a = 127} {b = length name} short.0,
          reads,
          leb-false {a = 256} {b = s.module_count + 1} (omega (arith, room)),
        )
        rest

  -- The names of a table in the file, each of at most 127 letters, and no more than the entries that
  -- are left: the loop of `ResolveImports` reads the table back, and the entry of each library is the
  -- next one after the count, which grows by one for each.
  pub resolve_from-names :
      (names : List (List ℕ)) (pos : ℕ) (s : Os2)
      → Holds pos (encode_names names)
      → Short names
      → s.module_count + length names ≤ 255
      → (s' : Os2) × (resolve_from img
            (length (encode_names names))
            pos
            (pos + length (encode_names names))
            s
          ≡ done tt s')
        × (s'.module_count ≡ s.module_count + length names)
        × ((k : ℕ)
            → k < length names
            → s'.modules (s.module_count + 1 + k)
              ≡ library_table (name_at names k) (s.modules (s.module_count + 1 + k)))
  resolve_from-names names pos s holds short room = (
    add_libraries names s,
    resolve_from-adds (length (encode_names names)) names pos (pos + length (encode_names names)) s
        holds short refl (omega arith) room,
    add_libraries-count names s,
    add_libraries-at names s,
  )
