-- ===== src/Kernel/Heap.antt =====
-- The blocks of a heap page: `t_bloque` of Segundo tp/rocketLibrary/structs/structs.h, and the
-- functions of Segundo tp/kernel/src/manejo_heap.c that read or change the blocks of one page.
-- Memory answers by messages: the answers still to come are a list.
pub mod Bloques
pub mod Compactacion
pub mod Direcciones
pub mod Particion
pub mod Liberacion
pub mod PaginaNueva
pub mod Marcas
pub mod Tablas
pub mod Vuelta
use so_commons.Base.{
  ℕ, zero, suc, ◌+◌, ◌-◌, ◌<◌, Bool, true, false, ◌&&◌, not, Option, none, some, List, [], ◌∷◌,
  ◌++◌, ◌==◌, leb, ltb, if◌then◌else◌, ◌>>=◌, ℤ, pos, negsuc, length,
}
use so_commons.Memoria.{Respuesta, escritura_satisfactoria, error_en_escritura}

-- METADATA_BLOQUE_SIZE
abbrev pub metadata_bloque_size : ℕ
metadata_bloque_size = 5

pub record Bloque : Type 0 where
  pub nro_bloque : ℤ
  pub size : ℕ
  pub is_used : Bool
  pub offset : ℕ
  pub fin : ℕ

-- A heap page of a process; -1 in both numbers after `liberar_paginas`.
pub record NodoTablaHeap : Type 0 where
  pub pid : ℤ
  pub numero_pagina : ℤ
  pub lista_de_bloques : List Bloque
  pub espacio_bloque_maximo : ℕ

-- `nro_bloque < 0`
abbrev pub es_especial : Bloque → Bool
es_especial b = elim b.nro_bloque [ pos n ↦ false | negsuc n ↦ true ]

-- The block of a page nobody has used.
abbrev pub bloque_inicial : ℕ → Bloque
bloque_inicial page_size = record {
  nro_bloque = negsuc 0;
  size = page_size - metadata_bloque_size;
  is_used = false;
  offset = 5;
  fin = page_size;
}

-- The loop of `indice_bloque_especial`, at index `i`; `none` when there is no such block.
unfoldable pub especial_desde : ℕ → List Bloque → Option ℕ
especial_desde i [] = none
especial_desde i (b ∷ bs) = if es_especial b then some i else especial_desde (suc i) bs

unfoldable pub indice_bloque_especial : List Bloque → ℕ
unfolding especial_desde
indice_bloque_especial bs = elim (especial_desde 0 bs) [ none ↦ 0 | some i ↦ i ]

-- The largest number of a block, and at least 0.
unfoldable pub maximo_desde : ℕ → List Bloque → ℕ
maximo_desde max [] = max
maximo_desde max (b ∷ bs) = elim b.nro_bloque [
  | pos n ↦ maximo_desde (if ltb max n then n else max) bs
  | negsuc n ↦ maximo_desde max bs
]

unfoldable pub buscar_ultimo_bloque_bis : List Bloque → ℕ
unfolding maximo_desde
buscar_ultimo_bloque_bis bs = maximo_desde 0 bs

unfoldable pub crear_nuevo_bloque : ℕ → Bloque → List Bloque → Bloque
unfolding buscar_ultimo_bloque_bis
crear_nuevo_bloque bytes_pedidos especial bs = record {
  nro_bloque = pos (buscar_ultimo_bloque_bis bs);
  size = bytes_pedidos;
  is_used = true;
  offset = especial.offset;
  fin = especial.offset + bytes_pedidos;
}

-- The callers have checked that the block has room for the new one and its metadata.
abbrev pub recalcular_offset_final : Bloque → Bloque → Bloque
recalcular_offset_final especial nuevo = record especial {
  offset = especial.offset + nuevo.size + metadata_bloque_size;
  size = especial.size - nuevo.size - metadata_bloque_size;
}

abbrev pub ocupar_bloque : Bloque → ℕ → Bloque
ocupar_bloque b bytes_pedidos = record b { is_used = true; fin = bytes_pedidos }

-- The two tests of `check_existe_pagina_con_espacio` and `buscar_primer_bloque_libre`.
abbrev pub alcanza : ℕ → Bloque → Bool
alcanza bytes_pedidos b = not b.is_used && leb bytes_pedidos b.size && not (es_especial b)

abbrev pub alcanza_especial : ℕ → Bloque → Bool
alcanza_especial bytes_pedidos b =
    not b.is_used && leb (bytes_pedidos + metadata_bloque_size) b.size && es_especial b

abbrev pub avanza : Bloque → Option (ℕ × List Bloque) → Option (ℕ × List Bloque)
avanza b none = none
avanza b (some (k, bs)) = some (suc k, b ∷ bs)

-- The loop of `buscar_primer_bloque_libre` over the blocks of a page, `todos`: the first that is
-- large enough is taken, or the special block is split and goes to the end after the new one. It
-- gives the place of the block taken.
unfoldable pub tomar_bloque : ℕ → List Bloque → List Bloque → Option (ℕ × List Bloque)
unfolding crear_nuevo_bloque
tomar_bloque bytes_pedidos todos [] = none
tomar_bloque bytes_pedidos todos (b ∷ bs) =
    let resto = avanza b (tomar_bloque bytes_pedidos todos bs) in
    let nuevo = crear_nuevo_bloque bytes_pedidos b todos in
    if alcanza bytes_pedidos b
    then some (0, ocupar_bloque b bytes_pedidos ∷ bs)
    else (if alcanza_especial bytes_pedidos b
        then some (length bs, bs ++ (nuevo ∷ recalcular_offset_final b nuevo ∷ []))
        else resto)

-- What is left of a block larger than the request, and the block cut to the request.
abbrev pub bloque_particionado : Bloque → ℕ → Bloque
bloque_particionado b bytes_pedidos = record {
  nro_bloque = pos 0;
  size = b.size - bytes_pedidos - metadata_bloque_size;
  is_used = false;
  offset = b.offset + bytes_pedidos + metadata_bloque_size;
  fin =
      b.offset
      + bytes_pedidos
      + metadata_bloque_size
      + (b.size - bytes_pedidos - metadata_bloque_size);
}

abbrev pub bloque_recortado : Bloque → ℕ → Bloque
bloque_recortado b bytes_pedidos = record b { size = bytes_pedidos; fin = b.offset + bytes_pedidos }

-- Two free blocks in a row become one.
abbrev pub unir : Bloque → Bloque → Bloque
unir bloque1 bloque2 = record bloque1 {
  size = bloque1.size + (bloque2.size + metadata_bloque_size);
}

abbrev pub y_antes : Bloque → Option (List Bloque) → Option (List Bloque)
y_antes b none = none
y_antes b (some bs) = some (b ∷ bs)

-- The loop of `compactar` up to the first two free blocks in a row: the blocks with the two joined,
-- or `none` where there are no two.
unfoldable pub unir_primeros : List Bloque → Option (List Bloque)
unir_primeros [] = none
unir_primeros (bloque1 ∷ []) = none
unir_primeros (bloque1 ∷ bloque2 ∷ bs) =
    let resto = y_antes bloque1 (unir_primeros (bloque2 ∷ bs)) in
    if not bloque1.is_used && not bloque2.is_used then some (unir bloque1 bloque2 ∷ bs) else resto

-- `compactar` as long as there are two blocks: the joins, the blocks left, and the answers not read.
-- A refused write ends it, and an answer that is neither of the two makes it ask again. `none` waits
-- for an answer that does not come.
unfoldable pub unir_libres :
    List Respuesta → List Bloque → Option (ℕ × List Bloque × List Respuesta)
unfolding unir_primeros
unir_libres [] bs = elim (unir_primeros bs) [ none ↦ some (0, bs, []) | some resto ↦ none ]
unir_libres (r ∷ rs) bs = elim (unir_primeros bs) [
  | none ↦ some (0, bs, r ∷ rs)
  | some bs' ↦ elim r [
    | error_en_escritura ↦ some (0, bs, rs)
    | escritura_satisfactoria ↦ unir_libres rs bs' >>= λ (n, fin, sobran). some (suc n, fin, sobran)
    | _ ↦ unir_libres rs bs
  ]
]
