-- ===== src/Fs/Archivos/Asignacion.antt =====
-- New blocks for a file: `asignar_nuevos_bloques` of
-- Segundo tp/filesystem/src/logicaFileSystem.c.
use so_commons.Base.{
  ℕ, zero, suc, ◌+◌, ◌*◌, ◌≤◌, ◌<◌, ◌≡◌, ◌≢◌, refl, sym, ap, ◌∙◌, Bool, true, false, not, some,
  List, [], ◌∷◌, arith, pos, length, get_elem?, set, count, All, All-mapa, All-mapa_con, length-set,
  get_elem?-set_self, get_elem?-set_ne, get_elem?_lt, count-set,
}
use so_commons.Fs.Mapa.{
  primer_bit_libre, buscar_primer_bloque_libre, marcar_bloque_bit_map_usado,
  actualizar_bloques_libres,
}
use so_commons.Fs.Mapa.Bits.{
  bits, EsMapa, length-bits, actualizar_bloques_libres-bits, marcar-bits,
  primer_bit_libre-esta_libre, buscar_primer_bloque_libre-bits,
}
use so_commons.Fs.Datos.Escritura.{Distintos}
use so_commons.Fs.Archivos.{asignar_bloques}

pub primer_bit_libre-count : (xs : List Bool) → 0 < count not xs → primer_bit_libre xs < length xs
unfolding primer_bit_libre
primer_bit_libre-count [] h = absurd (omega arith)
primer_bit_libre-count (true ∷ xs) h = omega (arith, primer_bit_libre-count xs h)
primer_bit_libre-count (false ∷ xs) h = omega arith

-- What the blocks that a file is given have in common.
pub record Asignados (mapa : List (List Bool)) (bloques : List ℕ) (mapa' : List (List Bool))
    : Type 0 where
  pub es_mapa : EsMapa mapa'
  pub mismo_largo : length (bits mapa') ≡ length (bits mapa)
  pub distintos : Distintos bloques
  pub libres : All (λ b. get_elem? (bits mapa) b ≡ some false) bloques
  pub usados : All (λ b. get_elem? (bits mapa') b ≡ some true) bloques
  pub otros :
      (j : ℕ) → All (λ b. b ≢ j) bloques → get_elem? (bits mapa') j ≡ get_elem? (bits mapa) j
  pub quedan : actualizar_bloques_libres mapa' + length bloques ≡ actualizar_bloques_libres mapa

Asignados-uno :
    (mapa mapa1 mapa' : List (List Bool)) (b : ℕ) (bloques : List ℕ)
    → get_elem? (bits mapa) b ≡ some false
    → bits mapa1 ≡ set (bits mapa) b true
    → Asignados mapa1 bloques mapa'
    → Asignados mapa (b ∷ bloques) mapa'
Asignados-uno mapa mapa1 mapa' b bloques libre igual a =
    let m = get_elem?_lt (bits mapa) b libre in
    let ocupado : get_elem? (bits mapa1) b ≡ some true =
      rw igual (get_elem?-set_self (bits mapa) b true m) in
    let otros1 : All (λ c. c ≢ b) bloques =
      All-mapa bloques (λ c l e. libre_y_usado (sym l ∙ ap (get_elem? (bits mapa1)) e ∙ ocupado))
        a.libres in
    let quedan1 : actualizar_bloques_libres mapa1 + 1 ≡ actualizar_bloques_libres mapa =
      rw (actualizar_bloques_libres-bits mapa1, actualizar_bloques_libres-bits mapa, igual)
        (omega (arith, count-set not (bits mapa) b true libre)) in
    record {
      es_mapa = a.es_mapa;
      mismo_largo = a.mismo_largo ∙ ap length igual ∙ length-set (bits mapa) b true;
      distintos = (otros1, a.distintos);
      libres = (
        libre,
        All-mapa_con bloques
            (λ c q l.
              sym (get_elem?-set_ne (bits mapa) b c true (λ e. q (sym e)))
              ∙ ap (λ xs. get_elem? xs c) (sym igual)
              ∙ l)
            otros1 a.libres,
      );
      usados = (a.otros b otros1 ∙ ocupado, a.usados);
      otros = λ j (q, qs).
          a.otros j qs ∙ ap (λ xs. get_elem? xs j) igual ∙ get_elem?-set_ne (bits mapa) b j true q;
      quedan = omega (arith, a.quedan, quedan1);
    }
  where
    libre_y_usado : some false ≡ some true → ⊥
    libre_y_usado e = absurd (ground arith)

asignar_paso :
    (cantidad n : ℕ) (mapa : List (List Bool)) (p : ℕ) {mapa1 mapa' : List (List Bool)}
    {bloques : List ℕ}
    → buscar_primer_bloque_libre cantidad mapa ≡ pos p
    → marcar_bloque_bit_map_usado mapa p ≡ some mapa1
    → asignar_bloques cantidad n mapa1 ≡ some (bloques, mapa')
    → asignar_bloques cantidad (suc n) mapa ≡ some (p ∷ bloques, mapa')
unfolding asignar_bloques
asignar_paso cantidad n mapa p busca marca corre = rw (busca, marca, corre, asignar_bloques) refl

-- With enough free blocks in the map, a file is given as many as it needs. They are different, they
-- were free and are in use after, the other blocks are as before, and as many fewer are free.
pub asignar_bloques-Asignados :
    (cantidad n : ℕ) (mapa : List (List Bool))
    → EsMapa mapa
    → cantidad ≡ length mapa * 8
    → n ≤ actualizar_bloques_libres mapa
    → (bloques : List ℕ) × (mapa' : List (List Bool)) × (asignar_bloques cantidad n mapa
        ≡ some (bloques, mapa'))
      × (length bloques ≡ n)
      × Asignados mapa bloques mapa'
unfolding asignar_bloques marcar_bloque_bit_map_usado
asignar_bloques-Asignados cantidad zero mapa h c m = (
  [],
  mapa,
  refl,
  refl,
  record {
    es_mapa = h;
    mismo_largo = refl;
    distintos = tt;
    libres = tt;
    usados = tt;
    otros = λ j q. refl;
    quedan = omega arith;
  },
)
asignar_bloques-Asignados cantidad (suc n) mapa h c m =
    let p = primer_bit_libre (bits mapa) in
    let dentro : p < length (bits mapa) =
      primer_bit_libre-count (bits mapa) (omega (arith, actualizar_bloques_libres-bits mapa)) in
    let busca : buscar_primer_bloque_libre cantidad mapa ≡ pos p =
      buscar_primer_bloque_libre-bits mapa cantidad h c ∙ ground arith in
    let libre = primer_bit_libre-esta_libre (bits mapa) dentro in
    let (mapa1, marca, es_mapa1, igual) = marcar-bits true mapa p h dentro in
    let quedan1 : suc (actualizar_bloques_libres mapa1) ≡ actualizar_bloques_libres mapa =
      rw (actualizar_bloques_libres-bits mapa1, actualizar_bloques_libres-bits mapa, igual)
        (omega (arith, count-set not (bits mapa) p true libre)) in
    let largo : length mapa1 ≡ length mapa = omega (
      arith,
      length-bits mapa h,
      length-bits mapa1 es_mapa1,
      length-set (bits mapa) p true,
      ap length igual,
    ) in
    let (bloques, mapa', corre, cuantos, a) =
      asignar_bloques-Asignados cantidad n mapa1 es_mapa1 (omega arith) (omega arith) in
    (
      p ∷ bloques,
      mapa',
      asignar_paso cantidad n mapa p busca marca corre,
      ap suc cuantos,
      Asignados-uno mapa mapa1 mapa' p bloques libre igual a,
    )
