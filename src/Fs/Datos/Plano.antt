-- ===== src/Fs/Datos/Plano.antt =====
-- A file as one flat array of bytes, and the arrays of bytes under the blocks:
-- `escribirDatosEnBloques` of Segundo tp/filesystem/src/logicaFileSystem.c.
use so_commons.Base.{
  ℕ, zero, suc, ◌+◌, ◌-◌, ◌≤◌, ◌<◌, ◌≡◌, ◌≢◌, refl, sym, ap₂, none, some, List, [], ◌∷◌, ◌++◌,
  arith, ltb, if◌then◌else◌, length, get_elem?, set, take, drop, replicate, All, length-append,
  get_elem?-set_ne, Bool, false,
}
use so_commons.Memoria.Datos.Bytes.{
  poner, list_ext, get_elem?-append, get_elem?-poner_fin, length-take_le, length-drop,
}
use so_commons.Fs.Datos.{completar, fwrite_en}

-- The content of a block.
abbrev pub bloque_de : List (List ℕ) → ℕ → List ℕ
bloque_de disco bloque = elim (get_elem? disco bloque) [ none ↦ [] | some xs ↦ xs ]

-- The content of a file: that of its blocks, each filled with zeros up to the size of a block.
unfoldable pub contenido : ℕ → List (List ℕ) → List ℕ → List ℕ
contenido tamanio disco [] = []
contenido tamanio disco (bloque ∷ bloques) =
    completar tamanio (bloque_de disco bloque) ++ contenido tamanio disco bloques

-- Whether the byte `i` of a file is in the file of its block, and not just past the end of it.
unfoldable pub presente : ℕ → List (List ℕ) → List ℕ → ℕ → Bool
presente tamanio disco [] i = false
presente tamanio disco (bloque ∷ bloques) i =
    let resto = presente tamanio disco bloques (i - tamanio) in
    if ltb i tamanio then ltb i (length (bloque_de disco bloque)) else resto

get_elem?-replicate :
    (n i : ℕ) → get_elem? {A = ℕ} (replicate n 0) i ≡ (if ltb i n then some 0 else none)
get_elem?-replicate zero i = ground arith
get_elem?-replicate (suc n) zero = ground arith
get_elem?-replicate (suc n) (suc i) = ground (arith, get_elem?-replicate n i)

length-replicate : (n : ℕ) → length {A = ℕ} (replicate n 0) ≡ n
length-replicate zero = refl
length-replicate (suc n) = omega (arith, length-replicate n)

pub get_elem?-completar :
    (n : ℕ) (xs : List ℕ) (i : ℕ)
    → get_elem? (completar n xs) i
      ≡ (if ltb i (length xs) then get_elem? xs i else if ltb i n then some 0 else none)
get_elem?-completar n xs i = ground (
  arith,
  get_elem?-append xs (replicate (n - length xs) 0) i,
  get_elem?-replicate (n - length xs) (i - length xs),
)

pub length-completar : (n : ℕ) (xs : List ℕ) → length (completar n xs) ≡ length xs + (n - length xs)
length-completar n xs =
    omega (arith, length-append xs (replicate (n - length xs) 0), length-replicate (n - length xs))

length-poner_fin :
    (xs : List ℕ) (d : ℕ) (ys : List ℕ)
    → d ≤ length xs
    → length (poner xs d ys) ≡ d + length ys + (length xs - (d + length ys))
length-poner_fin xs d ys h =
    rw
      (
        length-append (take d xs) (ys ++ drop (d + length ys) xs),
        length-append ys (drop (d + length ys) xs),
      )
      (omega (arith, length-take_le d xs, length-drop (d + length ys) xs))

pub length-fwrite_en :
    (tamanio : ℕ) (xs : List ℕ) (d : ℕ) (ys : List ℕ)
    → length xs ≤ tamanio
    → d + length ys ≤ tamanio
    → length (fwrite_en xs d ys) ≤ tamanio
unfolding fwrite_en
length-fwrite_en tamanio xs d [] h k = h
length-fwrite_en tamanio xs d (y ∷ ys) h k =
    omega (arith, length-poner_fin (completar d xs) d (y ∷ ys), length-completar d xs)

pub fwrite_en_alcanza :
    (xs : List ℕ) (d : ℕ) (ys : List ℕ) → 0 < length ys → d + length ys ≤ length (fwrite_en xs d ys)
unfolding fwrite_en
fwrite_en_alcanza xs d [] h = absurd (omega arith)
fwrite_en_alcanza xs d (y ∷ ys) h =
    omega (arith, length-poner_fin (completar d xs) d (y ∷ ys), length-completar d xs)

-- A write in a block, on the block filled with zeros.
pub completar-fwrite_en :
    (tamanio : ℕ) (xs : List ℕ) (d : ℕ) (ys : List ℕ)
    → length xs ≤ tamanio
    → d + length ys ≤ tamanio
    → completar tamanio (fwrite_en xs d ys) ≡ poner (completar tamanio xs) d ys
unfolding fwrite_en
completar-fwrite_en tamanio xs d [] h k = list_ext _ _ λ i.
    ground (arith, get_elem?-poner_fin (completar tamanio xs) d [] i, length-completar tamanio xs)
completar-fwrite_en tamanio xs d (y ∷ ys) h k = list_ext _ _ λ i. ground (
  arith,
  get_elem?-completar tamanio (poner (completar d xs) d (y ∷ ys)) i,
  get_elem?-poner_fin (completar tamanio xs) d (y ∷ ys) i,
  get_elem?-poner_fin (completar d xs) d (y ∷ ys) i,
  get_elem?-completar d xs i,
  get_elem?-completar tamanio xs i,
  length-poner_fin (completar d xs) d (y ∷ ys),
  length-completar d xs,
  length-completar tamanio xs,
)

-- A write that stays in the first of two arrays.
pub poner-append_izquierda :
    (xs ys : List ℕ) (d : ℕ) (zs : List ℕ)
    → d + length zs ≤ length xs
    → poner (xs ++ ys) d zs ≡ poner xs d zs ++ ys
poner-append_izquierda xs ys d zs h = list_ext _ _ λ i. ground (
  arith,
  get_elem?-poner_fin (xs ++ ys) d zs i,
  get_elem?-poner_fin xs d zs i,
  get_elem?-append xs ys i,
  get_elem?-append (poner xs d zs) ys i,
  length-append xs ys,
  length-poner_fin xs d zs,
)

-- A write that goes on in the second.
pub poner-append_sigue :
    (xs ys : List ℕ) (d : ℕ) (zs ws : List ℕ)
    → d + length zs ≡ length xs
    → poner (xs ++ ys) d (zs ++ ws) ≡ poner xs d zs ++ poner ys 0 ws
poner-append_sigue xs ys d zs ws h = list_ext _ _ λ i. ground (
  arith,
  get_elem?-poner_fin (xs ++ ys) d (zs ++ ws) i,
  get_elem?-poner_fin xs d zs i,
  get_elem?-poner_fin ys 0 ws (i - length xs),
  get_elem?-append xs ys i,
  get_elem?-append zs ws (i - d),
  get_elem?-append (poner xs d zs) (poner ys 0 ws) i,
  length-append xs ys,
  length-append zs ws,
  length-poner_fin xs d zs,
)

-- A block that the file does not have.
pub contenido-set_otro :
    (tamanio : ℕ) (disco : List (List ℕ)) (bloque : ℕ) (xs : List ℕ) (bloques : List ℕ)
    → All (λ b. b ≢ bloque) bloques
    → contenido tamanio (set disco bloque xs) bloques ≡ contenido tamanio disco bloques
unfolding contenido
contenido-set_otro tamanio disco bloque xs [] h = refl
contenido-set_otro tamanio disco bloque xs (b ∷ bs) (h, hs) =
    ap₂ (λ c cs. completar tamanio c ++ cs) {x = bloque_de (set disco bloque xs) b}
      {y = bloque_de disco b}
      (rw (get_elem?-set_ne disco bloque b xs (λ e. h (sym e)), bloque_de) refl)
      (contenido-set_otro tamanio disco bloque xs bs hs)
