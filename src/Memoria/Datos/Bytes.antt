-- ===== src/Memoria/Datos/Bytes.antt =====
-- `memcpy` into and out of an array, byte by byte.
use so_commons.Base.{
  ℕ, zero, suc, ◌+◌, ◌-◌, ◌≤◌, ◌≡◌, refl, ap, ◌∙◌, ◌⊎◌, none, some, List, [], ◌∷◌, ◌++◌, arith, ltb,
  if◌then◌else◌, length, get_elem?, take, drop, length-append,
}
use so_commons.Memoria.Datos.{leer_bytes, escribir_bytes}

-- The `n` bytes from index `d` on.
abbrev pub trozo : List ℕ → ℕ → ℕ → List ℕ
trozo xs d n = take n (drop d xs)

-- The array with `ys` put at index `d`.
abbrev pub poner : List ℕ → ℕ → List ℕ → List ℕ
poner xs d ys = take d xs ++ (ys ++ drop (d + length ys) xs)

pub get_elem?-take :
    (n : ℕ) (xs : List ℕ) (i : ℕ)
    → get_elem? (take n xs) i ≡ (if ltb i n then get_elem? xs i else none)
get_elem?-take zero xs i = ground arith
get_elem?-take (suc n) [] i = ground arith
get_elem?-take (suc n) (x ∷ xs) zero = ground arith
get_elem?-take (suc n) (x ∷ xs) (suc i) = ground (arith, get_elem?-take n xs i)

pub get_elem?-drop : (d : ℕ) (xs : List ℕ) (i : ℕ) → get_elem? (drop d xs) i ≡ get_elem? xs (d + i)
get_elem?-drop zero xs i = ap (get_elem? xs) (omega arith)
get_elem?-drop (suc d) [] i = refl
get_elem?-drop (suc d) (x ∷ xs) i =
    get_elem?-drop d xs i ∙ ap (get_elem? (x ∷ xs)) {x = suc (d + i)} {y = suc d + i} (omega arith)

pub get_elem?-append :
    (xs ys : List ℕ) (i : ℕ)
    → get_elem? (xs ++ ys) i
      ≡ (if ltb i (length xs) then get_elem? xs i else get_elem? ys (i - length xs))
get_elem?-append [] ys i = ground arith
get_elem?-append (x ∷ xs) ys zero = ground arith
get_elem?-append (x ∷ xs) ys (suc i) = ground (arith, get_elem?-append xs ys i)

pub length-take_le : (n : ℕ) (xs : List ℕ) → n ≤ length xs → length (take n xs) ≡ n
length-take_le zero xs h = refl
length-take_le (suc n) [] h = absurd (omega arith)
length-take_le (suc n) (x ∷ xs) h = omega (arith, length-take_le n xs)

pub length-drop : (n : ℕ) (xs : List ℕ) → length (drop n xs) ≡ length xs - n
length-drop zero xs = omega arith
length-drop (suc n) [] = omega arith
length-drop (suc n) (x ∷ xs) = omega (arith, length-drop n xs)

-- Arrays with the same bytes are the same.
pub list_ext : (xs ys : List ℕ) → ((i : ℕ) → get_elem? xs i ≡ get_elem? ys i) → xs ≡ ys
list_ext [] [] h = refl
list_ext [] (y ∷ ys) h = absurd (ground (arith, h 0))
list_ext (x ∷ xs) [] h = absurd (ground (arith, h 0))
list_ext (x ∷ xs) (y ∷ ys) h = ground (arith, h 0, list_ext xs ys (λ i. h (suc i)))

pub get_elem?-none : (xs : List ℕ) (i : ℕ) → length xs ≤ i → get_elem? xs i ≡ none
get_elem?-none [] i h = refl
get_elem?-none (x ∷ xs) zero h = absurd (omega arith)
get_elem?-none (x ∷ xs) (suc i) h = get_elem?-none xs i (omega arith)

pub get_elem?-trozo :
    (xs : List ℕ) (d n i : ℕ)
    → get_elem? (trozo xs d n) i ≡ (if ltb i n then get_elem? xs (d + i) else none)
get_elem?-trozo xs d n i = ground (arith, get_elem?-take n (drop d xs) i, get_elem?-drop d xs i)

pub length-trozo : (xs : List ℕ) (d n : ℕ) → d + n ≤ length xs → length (trozo xs d n) ≡ n
length-trozo xs d n h = length-take_le n (drop d xs) (omega (arith, length-drop d xs))

pub get_elem?-poner_fin :
    (xs : List ℕ) (d : ℕ) (ys : List ℕ) (i : ℕ)
    → d ≤ length xs
    → get_elem? (poner xs d ys) i ≡ (
        if ltb i d
        then get_elem? xs i
        else if ltb i (d + length ys)
        then get_elem? ys (i - d)
        else get_elem? xs i)
get_elem?-poner_fin xs d ys i h = ground (
  arith,
  get_elem?-append (take d xs) (ys ++ drop (d + length ys) xs) i,
  get_elem?-append ys (drop (d + length ys) xs) (i - d),
  get_elem?-take d xs i,
  get_elem?-drop (d + length ys) xs (i - d - length ys),
  length-take_le d xs,
)

pub get_elem?-poner :
    (xs : List ℕ) (d : ℕ) (ys : List ℕ) (i : ℕ)
    → d + length ys ≤ length xs
    → get_elem? (poner xs d ys) i ≡ (
        if ltb i d
        then get_elem? xs i
        else if ltb i (d + length ys)
        then get_elem? ys (i - d)
        else get_elem? xs i)
get_elem?-poner xs d ys i h = get_elem?-poner_fin xs d ys i (omega arith)

pub length-poner :
    (xs : List ℕ) (d : ℕ) (ys : List ℕ)
    → d + length ys ≤ length xs
    → length (poner xs d ys) ≡ length xs
length-poner xs d ys h =
    rw
      (
        length-append (take d xs) (ys ++ drop (d + length ys) xs),
        length-append ys (drop (d + length ys) xs),
      )
      (omega (arith, length-take_le d xs, length-drop (d + length ys) xs))

pub leer_bytes-trozo :
    (xs : List ℕ) (d n : ℕ) → d + n ≤ length xs → leer_bytes xs d n ≡ some (trozo xs d n)
unfolding leer_bytes
leer_bytes-trozo xs d n h = ground arith

pub escribir_bytes-poner :
    (xs : List ℕ) (d : ℕ) (ys : List ℕ)
    → d + length ys ≤ length xs
    → escribir_bytes xs d ys ≡ some (poner xs d ys)
unfolding escribir_bytes
escribir_bytes-poner xs d ys h = ground arith

-- A write inside a block is seen through the block.
pub trozo-poner_dentro :
    (xs : List ℕ) (b n d : ℕ) (ys : List ℕ)
    → b + n ≤ length xs
    → d + length ys ≤ n
    → trozo (poner xs (b + d) ys) b n ≡ poner (trozo xs b n) d ys
trozo-poner_dentro xs b n d ys h k = list_ext _ _ λ i. ground (
  arith,
  get_elem?-trozo (poner xs (b + d) ys) b n i,
  get_elem?-poner xs (b + d) ys (b + i),
  get_elem?-poner (trozo xs b n) d ys i,
  get_elem?-trozo xs b n i,
  length-trozo xs b n h,
)

-- A write beside a block leaves it.
pub trozo-poner_fuera :
    (xs : List ℕ) (b n d : ℕ) (ys : List ℕ)
    → d + length ys ≤ length xs
    → (d + length ys ≤ b) ⊎ (b + n ≤ d)
    → trozo (poner xs d ys) b n ≡ trozo xs b n
trozo-poner_fuera xs b n d ys h k = list_ext _ _ λ i. ground (
  arith,
  get_elem?-trozo (poner xs d ys) b n i,
  get_elem?-poner xs d ys (b + i),
  get_elem?-trozo xs b n i,
)

-- What was written is read back.
pub trozo-poner_self :
    (xs : List ℕ) (d : ℕ) (ys : List ℕ)
    → d + length ys ≤ length xs
    → trozo (poner xs d ys) d (length ys) ≡ ys
trozo-poner_self xs d ys h = list_ext _ _ λ i. ground (
  arith,
  get_elem?-trozo (poner xs d ys) d (length ys) i,
  get_elem?-poner xs d ys (d + i),
  get_elem?-none ys i,
)

-- A block of a block.
pub trozo-trozo :
    (xs : List ℕ) (b n d k : ℕ) → d + k ≤ n → trozo (trozo xs b n) d k ≡ trozo xs (b + d) k
trozo-trozo xs b n d k h = list_ext _ _ λ i. ground (
  arith,
  get_elem?-trozo (trozo xs b n) d k i,
  get_elem?-trozo xs b n (d + i),
  get_elem?-trozo xs (b + d) k i,
)

-- A block, in two parts.
pub trozo-append :
    (xs : List ℕ) (d n m : ℕ)
    → d + n ≤ length xs
    → trozo xs d (n + m) ≡ trozo xs d n ++ trozo xs (d + n) m
trozo-append xs d n m h = list_ext _ _ λ i. ground (
  arith,
  get_elem?-trozo xs d (n + m) i,
  get_elem?-append (trozo xs d n) (trozo xs (d + n) m) i,
  get_elem?-trozo xs d n i,
  get_elem?-trozo xs (d + n) m (i - n),
  length-trozo xs d n h,
)
