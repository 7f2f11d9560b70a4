-- ===== src/Fs/Datos/Archivo.antt =====
-- Writes to a file at any offset: `escribirDatosEnBloques` of
-- Segundo tp/filesystem/src/logicaFileSystem.c.
use so_commons.Base.{
  ℕ, zero, suc, ◌+◌, ◌-◌, ◌*◌, ◌/◌, ◌%◌, ◌≤◌, ◌<◌, ◌≡◌, refl, ◌⊎◌, sym, ap, ◌∙◌, List, [], arith,
  ltb, ◌==◌, length, Bool-cases, Option-cases, get_elem?, inl, inr, false,
}
use native.Mathlib.Nat.{mod-add-div, mod-lt}
use so_commons.Fs.{redondear_division_pa_arriba}
use so_commons.Fs.Datos.{completar, bloque_inicial}
use so_commons.Fs.Datos.Plano.{bloque_de, length-completar}
use so_commons.Fs.Datos.Legible.{Legible}
use so_commons.Fs.Datos.Escritura.{EsDisco, EsDisco-get}

pub redondear_alcanza : (n t : ℕ) → 0 < t → n ≤ t * redondear_division_pa_arriba n t
unfolding redondear_division_pa_arriba
redondear_alcanza n t h =
    let e = mod-add-div n t in
    let m = mod-lt n h in
    let q = n / t in
    elim (Bool-cases (ltb 0 (n % t))) [
      | inl resto ↦ rw resto (omega arith)
      | inr justo ↦ let cero : n % t ≡ 0 = ground arith in rw justo (omega arith)
    ]

cero_o_suc : (n : ℕ) → (n ≡ 0) ⊎ ((m : ℕ) × (n ≡ suc m))
cero_o_suc zero = inl refl
cero_o_suc (suc n) = inr (n, refl)

no_cero : (p : ℕ) → (suc p == 0) ≡ false
no_cero p = ground arith

inicio :
    (tamanio offset p : ℕ)
    → redondear_division_pa_arriba offset tamanio ≡ suc p
    → bloque_inicial tamanio offset ≡ (p, offset - tamanio * p)
unfolding bloque_inicial
inicio tamanio offset p igual =
    rw (igual, no_cero p)
      (ap (λ i. (i, offset - tamanio * i)) {x = suc p - 1} {y = p} (omega arith))

inicio_cero :
    (tamanio offset : ℕ)
    → ltb 0 (offset % tamanio) ≡ false
    → offset / tamanio ≡ 0
    → bloque_inicial tamanio offset ≡ (0, offset)
unfolding bloque_inicial redondear_division_pa_arriba
inicio_cero tamanio offset justo nada = rw (justo, nada) refl

pub bloque_inicial_lem :
    (tamanio offset : ℕ)
    → 0 < tamanio
    → (i : ℕ) × (byte : ℕ) × (bloque_inicial tamanio offset ≡ (i, byte))
      × (tamanio * i + byte ≡ offset)
      × (byte ≤ tamanio)
unfolding redondear_division_pa_arriba
bloque_inicial_lem tamanio offset h =
    let q = offset / tamanio in
    let e = mod-add-div offset tamanio in
    let m = mod-lt offset h in
    elim (Bool-cases (ltb 0 (offset % tamanio))) [
      | inl resto ↦
          let r : redondear_division_pa_arriba offset tamanio ≡ suc q = rw resto (omega arith) in
          (q, offset - tamanio * q, inicio tamanio offset q r, omega arith, omega arith)
      | inr justo ↦
          let cero : offset % tamanio ≡ 0 = ground arith in
          elim (cero_o_suc q) [
            | inl nada ↦
                let todo : offset ≡ 0 =
                  sym e
                  ∙ ap (λ n. offset % tamanio + tamanio * n) {x = q} {y = 0} nada
                  ∙ omega arith in
                (0, offset, inicio_cero tamanio offset justo nada, omega arith, omega arith)
            | inr (p, igual) ↦
                let r : redondear_division_pa_arriba offset tamanio ≡ suc p = rw justo igual in
                let todo : offset ≡ tamanio * p + tamanio =
                  sym e
                  ∙ ap (λ n. offset % tamanio + tamanio * n) {x = q} {y = suc p} igual
                  ∙ omega arith in
                (p, offset - tamanio * p, inicio tamanio offset p r, omega arith, omega arith)
          ]
    ]

pub largo_completo :
    (tamanio : ℕ) (disco : List (List ℕ)) (b : ℕ)
    → EsDisco tamanio disco
    → length (completar tamanio (bloque_de disco b)) ≡ tamanio
largo_completo tamanio disco b h = elim (Option-cases (get_elem? disco b)) [
  | inl nada ↦ rw (nada, bloque_de) (omega (arith, length-completar tamanio []))
  | inr (xs, igual) ↦
      rw (igual, bloque_de)
        (omega (arith, length-completar tamanio xs, EsDisco-get tamanio disco b h igual))
]
