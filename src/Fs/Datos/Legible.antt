-- ===== src/Fs/Datos/Legible.antt =====
-- The memory that `escribirDatosEnBloques` of Segundo tp/filesystem/src/logicaFileSystem.c reads from its buffer.
use so_commons.Base.{ℕ, ◌+◌, ◌-◌, ◌≤◌, ◌<◌, ◌≡◌, ◌⊎◌, inl, inr, arith}

-- Enough memory can be read from the buffer on, `largo` bytes, for a write of `restantes` bytes from `start` on at the byte
-- `byte` of a block: each turn of the loop reads up to `start` bytes more than it writes. A write inside one block
-- reads no more than the buffer.
abbrev pub Legible : (tamanio byte start restantes largo : ℕ) → Type 0
Legible tamanio byte start restantes largo =
    (restantes ≡ 0)
    ⊎ (((start + restantes) + (start + restantes) ≤ largo)
        ⊎ ((byte + restantes ≤ tamanio) × (start + (start + restantes) ≤ largo)))

pub Legible-lee :
    (tamanio byte start restantes k largo : ℕ)
    → 0 < restantes
    → k ≤ restantes
    → Legible tamanio byte start restantes largo
    → start + (start + k) ≤ largo
Legible-lee tamanio byte start restantes k largo p m (inl nada) = absurd (omega arith)
Legible-lee tamanio byte start restantes k largo p m (inr (inl doble)) = omega arith
Legible-lee tamanio byte start restantes k largo p m (inr (inr (cabe, justo))) = omega arith

pub Legible-sigue :
    (tamanio byte start restantes largo : ℕ)
    → byte ≤ tamanio
    → tamanio ≤ byte + restantes
    → Legible tamanio byte start restantes largo
    → Legible tamanio 0 (start + (tamanio - byte)) (restantes - (tamanio - byte)) largo
Legible-sigue tamanio byte start restantes largo m lleno (inl nada) = inl (omega arith)
Legible-sigue tamanio byte start restantes largo m lleno (inr (inl doble)) = inr (inl (omega arith))
Legible-sigue tamanio byte start restantes largo m lleno (inr (inr (cabe, justo))) =
    inl (omega arith)

pub Legible-length :
    (tamanio byte restantes largo : ℕ) → Legible tamanio byte 0 restantes largo → restantes ≤ largo
Legible-length tamanio byte restantes largo (inl nada) = omega arith
Legible-length tamanio byte restantes largo (inr (inl doble)) = omega arith
Legible-length tamanio byte restantes largo (inr (inr (cabe, justo))) = omega arith
