-- ===== src/Fs/Mapa/Bits.antt =====
-- The bitmap as one sequence of bits, and what the operations on its bytes do to it:
-- Segundo tp/filesystem/src/logicaFileSystem.c.
use so_commons.Base.{
  ℕ, zero, suc, ◌+◌, ◌*◌, ◌/◌, ◌%◌, ◌≤◌, ◌<◌, ◌≡◌, refl, sym, ap, ◌∙◌, ◌⊎◌, inl, inr, Bool, true,
  false, not, some, List, [], ◌∷◌, ◌++◌, Bool-cases, arith, ltb, ◌==◌, if◌then◌else◌, pos, negsuc,
  length, get_elem?, set, length-set, get_elem?-some, count, All, length-append,
}
use native.Mathlib.Nat.{add-mod_left, mod-eq_of_lt}
use so_commons.Fs.Mapa.{
  primer_bit_libre, recorrer, bit_usado, buscar_primer_bloque_libre, numero_de_bit, marcar,
  actualizar_bloques_libres,
}

-- All the bits, in the order of the blocks.
unfoldable pub bits : List (List Bool) → List Bool
bits [] = []
bits (byte ∷ bytes) = byte ++ bits bytes

unfoldable pub EsByte : List Bool → Type 0
EsByte byte = length byte ≡ 8

-- Every byte has eight bits.
unfoldable pub EsMapa : List (List Bool) → Type 0
unfolding EsByte
EsMapa = All EsByte

pub length-bits : (mapa : List (List Bool)) → EsMapa mapa → length (bits mapa) ≡ length mapa * 8
unfolding bits EsMapa
length-bits [] h = refl
length-bits (byte ∷ bytes) (h, hs) =
    omega (arith, length-append byte (bits bytes), length-bits bytes hs)

resto_chico : (k r : ℕ) → r < k → (k + r) % k ≡ r
resto_chico k r h = add-mod_left k r ∙ mod-eq_of_lt h

pub numero_de_bit_lem : (bloque : ℕ) → numero_de_bit bloque ≡ bloque % 8
unfolding numero_de_bit
numero_de_bit_lem bloque = elim (Bool-cases (bloque / 8 == 0)) [
  | inl cero ↦ rw cero refl
  | inr otro ↦ rw otro (
      ap (λ n. n % (bloque / 8 * 8)) {x = bloque} {y = bloque / 8 * 8 + bloque % 8} (omega arith)
      ∙ resto_chico (bloque / 8 * 8) (bloque % 8) (ground arith))
]

count-append : (xs ys : List Bool) → count not (xs ++ ys) ≡ count not xs + count not ys
count-append [] ys = omega arith
count-append (true ∷ xs) ys = omega (arith, count-append xs ys)
count-append (false ∷ xs) ys = omega (arith, count-append xs ys)

pub actualizar_bloques_libres-bits :
    (mapa : List (List Bool)) → actualizar_bloques_libres mapa ≡ count not (bits mapa)
unfolding actualizar_bloques_libres bits
actualizar_bloques_libres-bits [] = refl
actualizar_bloques_libres-bits (byte ∷ bytes) =
    omega (arith, count-append byte (bits bytes), actualizar_bloques_libres-bits bytes)

set-append_left :
    (xs ys : List Bool) (i : ℕ) (v : Bool) → i < length xs → set (xs ++ ys) i v ≡ set xs i v ++ ys
set-append_left [] ys i v h = absurd (omega arith)
set-append_left (x ∷ xs) ys zero v h = refl
set-append_left (x ∷ xs) ys (suc i) v h = ap (x ∷◌) (set-append_left xs ys i v (omega arith))

set-append_right :
    (xs ys : List Bool) (i : ℕ) (v : Bool) → set (xs ++ ys) (length xs + i) v ≡ xs ++ set ys i v
set-append_right [] ys i v = ap (λ j. set ys j v) (omega arith)
set-append_right (x ∷ xs) ys i v =
    ap (λ j. set (x ∷ (xs ++ ys)) j v) {x = suc (length xs) + i} {y = suc (length xs + i)}
      (omega arith)
    ∙ ap (x ∷◌) (set-append_right xs ys i v)

set-bits :
    (mapa : List (List Bool)) (k i : ℕ) (v : Bool) {byte : List Bool}
    → EsMapa mapa
    → get_elem? mapa k ≡ some byte
    → i < 8
    → bits (set mapa k (set byte i v)) ≡ set (bits mapa) (k * 8 + i) v
unfolding bits EsMapa EsByte
set-bits [] k i v h igual m = absurd (ground arith)
set-bits (b ∷ bs) zero i v {byte} (h, hs) igual m = sym (
    ap (λ j. set (b ++ bits bs) j v) {x = 0 * 8 + i} {y = i} (omega arith)
    ∙ set-append_left b (bits bs) i v (omega arith)
    ∙ ap (λ x. set x i v ++ bits bs) {x = b} {y = byte} (ground arith))
set-bits (b ∷ bs) (suc k) i v (h, hs) igual m =
    ap (b ++◌) (set-bits bs k i v hs igual m)
    ∙ sym (set-append_right b (bits bs) (k * 8 + i) v)
    ∙ ap (λ j. set (b ++ bits bs) j v) {x = length b + (k * 8 + i)} {y = suc k * 8 + i}
        (omega arith)

All-set_byte :
    (mapa : List (List Bool)) (k i : ℕ) (v : Bool) {byte : List Bool}
    → EsMapa mapa
    → get_elem? mapa k ≡ some byte
    → EsMapa (set mapa k (set byte i v))
unfolding EsMapa EsByte
All-set_byte [] k i v h igual = absurd (ground arith)
All-set_byte (b ∷ bs) zero i v {byte} (h, hs) igual = (ground (arith, length-set byte i v), hs)
All-set_byte (b ∷ bs) (suc k) i v (h, hs) igual = (h, All-set_byte bs k i v hs igual)

pub marcar-bits :
    (v : Bool) (mapa : List (List Bool)) (bloque : ℕ)
    → EsMapa mapa
    → bloque < length (bits mapa)
    → (mapa' : List (List Bool)) × (marcar v mapa bloque ≡ some mapa')
      × EsMapa mapa'
      × (bits mapa' ≡ set (bits mapa) bloque v)
unfolding marcar
marcar-bits v mapa bloque h m =
    let (byte, igual) = get_elem?-some mapa (bloque / 8) (omega (arith, length-bits mapa h)) in
    (
      set mapa (bloque / 8) (set byte (numero_de_bit bloque) v),
      rw igual refl,
      All-set_byte mapa (bloque / 8) (numero_de_bit bloque) v h igual,
      set-bits mapa (bloque / 8) (numero_de_bit bloque) v h igual
            (omega (arith, numero_de_bit_lem bloque))
          ∙ ap (λ j. set (bits mapa) j v) {x = bloque / 8 * 8 + numero_de_bit bloque} {y = bloque}
              (omega (arith, numero_de_bit_lem bloque)),
    )

primer_bit_libre-append :
    (xs ys : List Bool)
    → primer_bit_libre (xs ++ ys) ≡ (
        if ltb (primer_bit_libre xs) (length xs)
        then primer_bit_libre xs
        else length xs + primer_bit_libre ys)
unfolding primer_bit_libre
primer_bit_libre-append [] ys = ground arith
primer_bit_libre-append (true ∷ xs) ys = ground (arith, primer_bit_libre-append xs ys)
primer_bit_libre-append (false ∷ xs) ys = ground arith

pub primer_bit_libre-esta_libre :
    (xs : List Bool)
    → primer_bit_libre xs < length xs
    → get_elem? xs (primer_bit_libre xs) ≡ some false
unfolding primer_bit_libre
primer_bit_libre-esta_libre [] h = absurd (omega arith)
primer_bit_libre-esta_libre (true ∷ xs) h = primer_bit_libre-esta_libre xs (omega arith)
primer_bit_libre-esta_libre (false ∷ xs) h = refl

pub primer_bit_libre-antes :
    (xs : List Bool) (j : ℕ) → j < primer_bit_libre xs → get_elem? xs j ≡ some true
unfolding primer_bit_libre
primer_bit_libre-antes [] j h = absurd (omega arith)
primer_bit_libre-antes (true ∷ xs) zero h = refl
primer_bit_libre-antes (true ∷ xs) (suc j) h = primer_bit_libre-antes xs j (omega arith)
primer_bit_libre-antes (false ∷ xs) j h = absurd (omega arith)

-- Where the loops stop, against the first clear bit of the sequence.
Parada : ℕ → List (List Bool) → Type 0
unfolding recorrer bit_usado bits primer_bit_libre
Parada j mapa =
    ((k : ℕ) × (i : ℕ) × (recorrer j mapa ≡ (j + k, i))
      × (i < 8)
      × (k * 8 + i ≡ primer_bit_libre (bits mapa))
      × (bit_usado mapa k i ≡ false)
      × (primer_bit_libre (bits mapa) < length mapa * 8))
    ⊎ ((recorrer j mapa ≡ (j + length mapa, 8)) × (length mapa * 8 ≤ primer_bit_libre (bits mapa)))

recorrer-Parada : (j : ℕ) (mapa : List (List Bool)) → EsMapa mapa → Parada j mapa
unfolding Parada EsMapa EsByte
recorrer-Parada j [] h = inr (ground arith, omega arith)
recorrer-Parada j (byte ∷ bytes) (h, hs) =
    elim (Bool-cases (ltb (primer_bit_libre byte) (length byte))) [
      | inl si ↦
          let m : primer_bit_libre byte < 8 = ground arith in
          inl (
            0,
            primer_bit_libre byte,
            rw si (ap (λ n. (n, primer_bit_libre byte)) {x = j} {y = j + 0} (omega arith)),
            m,
            ground (arith, primer_bit_libre-append byte (bits bytes)),
            rw (primer_bit_libre-esta_libre byte (omega arith), bit_usado) refl,
            ground (arith, primer_bit_libre-append byte (bits bytes)),
          )
      | inr lleno ↦ elim (recorrer-Parada (suc j) bytes hs) [
        | inl (k, i, para, m, donde, libre, n) ↦ inl (
          suc k,
          i,
          rw lleno (para ∙ ap (λ n. (n, i)) {x = suc j + k} {y = j + suc k} (omega arith)),
          m,
          ground (arith, primer_bit_libre-append byte (bits bytes)),
          libre,
          ground (arith, primer_bit_libre-append byte (bits bytes)),
        )
        | inr (para, lleno') ↦ inr (
          rw lleno (
              para
              ∙ ap (λ n. (n, 8)) {x = suc j + length bytes} {y = j + length (byte ∷ bytes)}
                  (omega arith)),
          ground (arith, primer_bit_libre-append byte (bits bytes)),
        )
      ]
    ]

fuera : (mapa : List (List Bool)) → bit_usado mapa (length mapa) 8 ≡ true
unfolding bit_usado
fuera [] = refl
fuera (byte ∷ bytes) = fuera bytes

-- The search stops at the first free block; on a full map it answers -1, when the map has
-- exactly the blocks of the filesystem.
pub buscar_primer_bloque_libre-bits :
    (mapa : List (List Bool)) (cantidad : ℕ)
    → EsMapa mapa
    → cantidad ≡ length mapa * 8
    → buscar_primer_bloque_libre cantidad mapa ≡ (
        if ltb (primer_bit_libre (bits mapa)) (length (bits mapa))
        then pos (primer_bit_libre (bits mapa))
        else negsuc 0)
unfolding buscar_primer_bloque_libre Parada
buscar_primer_bloque_libre-bits mapa cantidad h n = elim (recorrer-Parada 0 mapa h) [
  | inl (k, i, para, m, donde, libre, dentro) ↦
      let p : recorrer 0 mapa ≡ (k, i) =
        para ∙ ap (λ n. (n, i)) {x = 0 + k} {y = k} (omega arith) in
      rw (p, libre) (ground (arith, length-bits mapa h))
  | inr (para, lleno) ↦
      let p : recorrer 0 mapa ≡ (length mapa, 8) =
        para ∙ ap (λ n. (n, 8)) {x = 0 + length mapa} {y = length mapa} (omega arith) in
      rw (p, fuera mapa) (ground (arith, length-bits mapa h))
]

-- On a map of whole bytes, with a bit for each block, the operations on bytes are those of one sequence of bits: marking a
-- block sets its bit and no other; the search gives the first clear bit, and -1 when there is none;
-- the count of free blocks is that of clear bits.
pub mapa-refina-bits :
    (mapa : List (List Bool)) (cantidad bloque : ℕ)
    → EsMapa mapa
    → cantidad ≡ length mapa * 8
    → bloque < cantidad
    → ((usado : Bool)
        → (mapa' : List (List Bool)) × (marcar usado mapa bloque ≡ some mapa')
          × EsMapa mapa'
          × (bits mapa' ≡ set (bits mapa) bloque usado))
      × (buscar_primer_bloque_libre cantidad mapa ≡ (
          if ltb (primer_bit_libre (bits mapa)) (length (bits mapa))
          then pos (primer_bit_libre (bits mapa))
          else negsuc 0))
      × (actualizar_bloques_libres mapa ≡ count not (bits mapa))
mapa-refina-bits mapa cantidad bloque h n m = (
  λ usado. marcar-bits usado mapa bloque h (omega (arith, length-bits mapa h)),
  buscar_primer_bloque_libre-bits mapa cantidad h n,
  actualizar_bloques_libres-bits mapa,
)
