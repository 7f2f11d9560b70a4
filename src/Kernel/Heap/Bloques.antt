-- ===== src/Kernel/Heap/Bloques.antt =====
-- The blocks of a page tile it: each starts where the one before ends, after its metadata.
use so_commons.Base.{
  ℕ, zero, suc, ◌+◌, ◌≤◌, ◌≡◌, refl, ◌⊎◌, inl, inr, true, false, none, some, List, [], ◌∷◌, arith,
  Bool-cases, All, count,
}
use so_commons.Kernel.Heap.{
  Bloque, metadata_bloque_size, es_especial, bloque_inicial, crear_nuevo_bloque,
  recalcular_offset_final, ocupar_bloque, alcanza, alcanza_especial, tomar_bloque,
}

-- Blocks from offset `d` on, the last one ending at `fin`, with the metadata of each in between.
abbrev pub Cubre : ℕ → ℕ → List Bloque → Type 0
Cubre d fin [] = d ≡ fin + metadata_bloque_size
Cubre d fin (b ∷ bs) = (b.offset ≡ d) × Cubre (d + b.size + metadata_bloque_size) fin bs

-- The tiling of a page of `page_size` bytes.
abbrev pub PaginaCubierta : ℕ → List Bloque → Type 0
PaginaCubierta page_size bs = Cubre metadata_bloque_size page_size bs

-- No block but the last is special.
abbrev pub SoloUltimoEspecial : List Bloque → Type 0
SoloUltimoEspecial [] = Unit
SoloUltimoEspecial (b ∷ []) = Unit
SoloUltimoEspecial (b ∷ c ∷ bs) = (es_especial b ≡ false) × SoloUltimoEspecial (c ∷ bs)

-- A new page is one free block.
pub bloque_inicial-PaginaCubierta :
    (page_size : ℕ)
    → metadata_bloque_size ≤ page_size
    → PaginaCubierta page_size (bloque_inicial page_size ∷ [])
bloque_inicial-PaginaCubierta page_size h = (refl, omega arith)

-- The block at place `k` is taken and has room for the request.
abbrev pub Tomado : ℕ → List Bloque → ℕ → Type 0
Tomado k [] bytes = ⊥
Tomado zero (b ∷ bs) bytes = (b.is_used ≡ true) × (bytes ≤ b.size)
Tomado (suc k) (b ∷ bs) bytes = Tomado k bs bytes

-- The result of taking a block.
abbrev pub TomaBien : ℕ → ℕ → ℕ → List Bloque → List Bloque → Type 0
TomaBien d fin bytes todos bs =
    ((tomar_bloque bytes todos bs ≡ none)
      × All (λ b. (alcanza bytes b ≡ false) × (alcanza_especial bytes b ≡ false)) bs)
    ⊎ ((k : ℕ) × (bs' : List Bloque) × (tomar_bloque bytes todos bs ≡ some (k, bs'))
        × Cubre d fin bs'
        × SoloUltimoEspecial bs'
        × (count es_especial bs' ≡ count es_especial bs)
        × Tomado k bs' bytes)

-- A block that is not special goes in front.
pub SoloUltimoEspecial-cons :
    (b : Bloque) (bs : List Bloque)
    → es_especial b ≡ false
    → SoloUltimoEspecial bs
    → SoloUltimoEspecial (b ∷ bs)
SoloUltimoEspecial-cons b [] e h = tt
SoloUltimoEspecial-cons b (c ∷ bs) e h = (e, h)

ultimo :
    (b : Bloque) (bs : List Bloque) → es_especial b ≡ true → SoloUltimoEspecial (b ∷ bs) → bs ≡ []
ultimo b [] e h = refl
ultimo b (c ∷ bs) e h = absurd (ground arith)

pub cola : (b : Bloque) (bs : List Bloque) → SoloUltimoEspecial (b ∷ bs) → SoloUltimoEspecial bs
cola b [] h = tt
cola b (c ∷ bs) h = h.1

module _ (d fin bytes : ℕ) (todos : List Bloque) where
  -- The special block is split.
  partir_especial :
      (b : Bloque) (bs : List Bloque)
      → Cubre d fin (b ∷ bs)
      → bs ≡ []
      → alcanza bytes b ≡ false
      → alcanza_especial bytes b ≡ true
      → TomaBien d fin bytes todos (b ∷ bs)
  unfolding tomar_bloque crear_nuevo_bloque
  partir_especial b (x ∷ bs) c e t w = absurd (ground arith)
  partir_especial b [] c e t w =
      let nuevo = crear_nuevo_bloque bytes b todos in
      let cabe : bytes + metadata_bloque_size ≤ b.size = ground arith in
      inr (
        0,
        nuevo ∷ recalcular_offset_final b nuevo ∷ [],
        rw (t, w) refl,
        (c.0, (omega (arith, c.0), omega (arith, c.1, cabe))),
        (refl, tt),
        ground (arith, t, w),
        (refl, omega arith),
      )

  -- A block further on is taken.
  tomar_despues :
      (b : Bloque) (bs : List Bloque)
      → Cubre d fin (b ∷ bs)
      → SoloUltimoEspecial (b ∷ bs)
      → alcanza bytes b ≡ false
      → alcanza_especial bytes b ≡ false
      → TomaBien (d + b.size + metadata_bloque_size) fin bytes todos bs
      → TomaBien d fin bytes todos (b ∷ bs)
  unfolding tomar_bloque
  tomar_despues b bs c s t w (inl (e, a)) = inl (ground (arith, e, t, w), ((t, w), a))
  tomar_despues b bs c s t w (inr (k, xs, e, c1, s1, n, g)) = elim (Bool-cases (es_especial b)) [
    | inl x ↦
        let nada : tomar_bloque bytes todos bs ≡ none = rw (ultimo b bs x s) refl in
        absurd (ground (arith, e, nada))
    | inr x ↦ inr (
      suc k,
      b ∷ xs,
      ground (arith, e, t, w),
      (c.0, c1),
      SoloUltimoEspecial-cons b xs x s1,
      ground (arith, n),
      g,
    )
  ]

-- Taking a block for a request, on blocks that tile a stretch and of which at most the last is special:
-- either no block is large enough, or one with room for the request is taken, and the blocks tile the
-- stretch again, as many are special as before, and at most the last.
pub tomar_bloque-Cubre :
    (d fin bytes : ℕ) (todos bs : List Bloque)
    → Cubre d fin bs
    → SoloUltimoEspecial bs
    → TomaBien d fin bytes todos bs
unfolding tomar_bloque crear_nuevo_bloque
tomar_bloque-Cubre d fin bytes todos [] c s = inl (refl, tt)
tomar_bloque-Cubre d fin bytes todos (b ∷ bs) c s =
    let rec =
      tomar_bloque-Cubre (d + b.size + metadata_bloque_size) fin bytes todos bs c.1 (cola b bs s) in
    elim (Bool-cases (alcanza bytes b)) [
      | inl t ↦
          let ne : es_especial b ≡ false = ground arith in
          inr (
            0,
            ocupar_bloque b bytes ∷ bs,
            rw t refl,
            c,
            SoloUltimoEspecial-cons (ocupar_bloque b bytes) bs ne (cola b bs s),
            refl,
            (refl, ground arith),
          )
      | inr t ↦ elim (Bool-cases (alcanza_especial bytes b)) [
        | inl w ↦
            let esp : es_especial b ≡ true = ground arith in
            partir_especial d fin bytes todos b bs c (ultimo b bs esp s) t w
        | inr w ↦ tomar_despues d fin bytes todos b bs c s t w rec
      ]
    ]
