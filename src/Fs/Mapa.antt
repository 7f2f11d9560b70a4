-- ===== src/Fs/Mapa.antt =====
-- The bitmap of blocks: `buscarPrimerBloqueLibre`, `marcarBloqueBitMapLibre`,
-- `marcarBloqueBitMapUsado` and `actualizarBloquesLibres` of
-- Segundo tp/filesystem/src/logicaFileSystem.c. The `msync` has no part in the result.
pub mod Bits
use so_commons.Base.{
  ℕ, zero, suc, ◌+◌, ◌*◌, ◌/◌, ◌%◌, Bool, true, false, not, Option, none, some, List, [], ◌∷◌, ltb,
  ◌==◌, if◌then◌else◌, ◌>>=◌, ℤ, pos, negsuc, length, get_elem?, set, count,
}

-- The index of the first clear bit of a byte; past the last bit, when all are set.
unfoldable pub primer_bit_libre : List Bool → ℕ
primer_bit_libre [] = 0
primer_bit_libre (true ∷ bits) = suc (primer_bit_libre bits)
primer_bit_libre (false ∷ bits) = 0

-- Where the two loops stop: the byte and the bit in it.
unfoldable pub recorrer : ℕ → List (List Bool) → ℕ × ℕ
unfolding primer_bit_libre
recorrer numero_de_bloque [] = (numero_de_bloque, 8)
recorrer numero_de_bloque (byte ∷ bytes) =
    let resto = recorrer (suc numero_de_bloque) bytes in
    let numero_de_bit = primer_bit_libre byte in
    if ltb numero_de_bit (length byte) then (numero_de_bloque, numero_de_bit) else resto

-- `(byte | 128 >> i) == byte`. With `i` = 8 the mask is 0, so the byte past the map that the code then reads
-- does not matter.
unfoldable pub bit_usado : List (List Bool) → ℕ → ℕ → Bool
bit_usado mapa k i = elim (get_elem? mapa k) [
  | none ↦ true
  | some byte ↦ elim (get_elem? byte i) [ none ↦ true | some usado ↦ usado ]
]

-- The test `(k - 1) * 8 + i == cantidadBloques` is on signed numbers.
unfoldable pub buscar_primer_bloque_libre : ℕ → List (List Bool) → ℤ
unfolding recorrer bit_usado
buscar_primer_bloque_libre cantidad_bloques mapa =
    let (k, i) = recorrer 0 mapa in
    if k * 8 + i == cantidad_bloques + 8
    then (if bit_usado mapa k i then negsuc 0 else pos (k * 8 + i))
    else pos (k * 8 + i)

unfoldable pub numero_de_bit : ℕ → ℕ
numero_de_bit bloque = if bloque / 8 == 0 then bloque % 8 else bloque % (bloque / 8 * 8)

-- `none` is an access past the map.
unfoldable pub marcar : Bool → List (List Bool) → ℕ → Option (List (List Bool))
unfolding numero_de_bit
marcar usado mapa bloque = get_elem? mapa (bloque / 8) >>= λ byte.
    some (set mapa (bloque / 8) (set byte (numero_de_bit bloque) usado))

unfoldable pub marcar_bloque_bit_map_libre : List (List Bool) → ℕ → Option (List (List Bool))
unfolding marcar
marcar_bloque_bit_map_libre = marcar false

unfoldable pub marcar_bloque_bit_map_usado : List (List Bool) → ℕ → Option (List (List Bool))
unfolding marcar
marcar_bloque_bit_map_usado = marcar true

unfoldable pub actualizar_bloques_libres : List (List Bool) → ℕ
actualizar_bloques_libres [] = 0
actualizar_bloques_libres (byte ∷ bytes) = count not byte + actualizar_bloques_libres bytes
