-- ===== src/Memoria/Cache/Orden.antt =====
-- What a move does to the entries of the cache: none is invented or changed, and a page
-- is cached at most once.
use so_commons.Base.{
  ℕ, ◌≡◌, refl, ◌⊎◌, inl, inr, true, false, none, some, List, [], ◌∷◌, arith, Bool-cases, All,
}
use so_commons.Memoria.{RegistroCacheMemoria}
use so_commons.Memoria.Cache.{es_pagina, quitar_pagina}

abbrev pub Entradas : Type 0
Entradas = List RegistroCacheMemoria

-- The first list is the second with some entries left out.
pub data Parte : Entradas → Entradas → Type 0 where
  nada : Parte [] []
  omite : {xs ys : Entradas} (y : RegistroCacheMemoria) → Parte xs ys → Parte xs (y ∷ ys)
  toma : {xs ys : Entradas} (y : RegistroCacheMemoria) → Parte xs ys → Parte (y ∷ xs) (y ∷ ys)

pub Parte-refl : (xs : Entradas) → Parte xs xs
Parte-refl [] = nada
Parte-refl (x ∷ xs) = toma x (Parte-refl xs)

-- No entry is the page.
abbrev pub SinPagina : ℕ → ℕ → Entradas → Type 0
SinPagina pid pagina = All (λ r. es_pagina pid pagina r ≡ false)

-- A page is cached at most once.
abbrev pub Unicas : Entradas → Type 0
Unicas [] = Unit
Unicas (e ∷ rs) = SinPagina e.pid e.pagina_id rs × Unicas rs

pub All-Parte {ℓ} :
    (P : RegistroCacheMemoria → Type ℓ) {xs ys : Entradas} → Parte xs ys → All P ys → All P xs
All-Parte P nada a = a
All-Parte P (omite y s) a = All-Parte P s a.1
All-Parte P (toma y s) a = (a.0, All-Parte P s a.1)

pub Unicas-Parte : {xs ys : Entradas} → Parte xs ys → Unicas ys → Unicas xs
Unicas-Parte nada u = u
Unicas-Parte (omite y s) u = Unicas-Parte s u.1
Unicas-Parte (toma y s) u =
    (All-Parte (λ r. es_pagina y.pid y.pagina_id r ≡ false) s u.0, Unicas-Parte s u.1)

-- `e` is the first entry of the page, and `resto` the others in order.
pub data Quita (pid pagina : ℕ) : Entradas → RegistroCacheMemoria → Entradas → Type 0 where
  aqui :
      {rs : Entradas} (r : RegistroCacheMemoria)
      → es_pagina pid pagina r ≡ true
      → Quita pid pagina (r ∷ rs) r rs
  sigue :
      {rs resto : Entradas} {e : RegistroCacheMemoria} (r : RegistroCacheMemoria)
      → es_pagina pid pagina r ≡ false
      → Quita pid pagina rs e resto
      → Quita pid pagina (r ∷ rs) e (r ∷ resto)

-- The search of the cache: no entry is the page, or the first is taken out.
pub quitar_pagina_cases :
    (pid pagina : ℕ) (cache : Entradas)
    → ((quitar_pagina pid pagina cache ≡ none) × SinPagina pid pagina cache)
      ⊎ ((e : RegistroCacheMemoria) × (resto : Entradas) × (quitar_pagina pid pagina cache
            ≡ some (e, resto))
          × Quita pid pagina cache e resto)
unfolding quitar_pagina
quitar_pagina_cases pid pagina [] = inl (refl, tt)
quitar_pagina_cases pid pagina (r ∷ rs) = elim (Bool-cases (es_pagina pid pagina r)) [
  | inl t ↦ inr (r, rs, rw t, aqui r t)
  | inr t ↦ elim (quitar_pagina_cases pid pagina rs) [
    | inl (e, s) ↦ inl (ground (arith, e), (t, s))
    | inr (x, resto, e, d) ↦ inr (x, r ∷ resto, ground (arith, e), sigue r t d)
  ]
]

module _ {pid pagina : ℕ} where
  pub Quita-es :
      {cache resto : Entradas} {e : RegistroCacheMemoria}
      → Quita pid pagina cache e resto
      → es_pagina pid pagina e ≡ true
  Quita-es (aqui r t) = t
  Quita-es (sigue r t d) = Quita-es d

  pub Quita-Parte :
      {cache resto : Entradas} {e : RegistroCacheMemoria}
      → Quita pid pagina cache e resto
      → Parte resto cache
  Quita-Parte (aqui {rs} r t) = omite r (Parte-refl rs)
  Quita-Parte (sigue r t d) = toma r (Quita-Parte d)

  pub Quita-All {ℓ} :
      (P : RegistroCacheMemoria → Type ℓ) {cache resto : Entradas} {e : RegistroCacheMemoria}
      → Quita pid pagina cache e resto
      → All P cache
      → P e
  Quita-All P (aqui r t) a = a.0
  Quita-All P (sigue r t d) a = Quita-All P d a.1

-- The same page under two descriptions.
SinPagina-eq :
    (pid pagina : ℕ) (e : RegistroCacheMemoria) (rs : Entradas)
    → es_pagina pid pagina e ≡ true
    → SinPagina e.pid e.pagina_id rs
    → SinPagina pid pagina rs
SinPagina-eq pid pagina e [] t s = tt
SinPagina-eq pid pagina e (r ∷ rs) t s = (ground (arith, s.0), SinPagina-eq pid pagina e rs t s.1)

pub Quita-SinPagina :
    {pid pagina : ℕ} {cache resto : Entradas} {e : RegistroCacheMemoria}
    → Quita pid pagina cache e resto
    → Unicas cache
    → SinPagina pid pagina resto
Quita-SinPagina {pid} {pagina} (aqui {rs} r t) u = SinPagina-eq pid pagina r rs t u.0
Quita-SinPagina (sigue r t d) u = (t, Quita-SinPagina d u.1)

pub SinPagina-of_es :
    (pid pagina : ℕ) (e : RegistroCacheMemoria) (rs : Entradas)
    → es_pagina pid pagina e ≡ true
    → SinPagina pid pagina rs
    → SinPagina e.pid e.pagina_id rs
SinPagina-of_es pid pagina e [] t s = tt
SinPagina-of_es pid pagina e (r ∷ rs) t s =
    (ground (arith, s.0), SinPagina-of_es pid pagina e rs t s.1)

-- A hit moves the entry to the front: the cache stays without repetitions.
pub Unicas-frente :
    {pid pagina : ℕ} {cache resto : Entradas} {e : RegistroCacheMemoria}
    → Quita pid pagina cache e resto
    → Unicas cache
    → Unicas (e ∷ resto)
Unicas-frente {pid} {pagina} {resto} {e} d u = (
  SinPagina-of_es pid pagina e resto (Quita-es d) (Quita-SinPagina d u),
  Unicas-Parte (Quita-Parte d) u,
)
