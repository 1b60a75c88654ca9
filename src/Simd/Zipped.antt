-- ===== src/Simd/Zipped.antt =====
-- `add_assign_avx2` of rust/persia-simd/src/lib.rs on two slices of the same length.
use persia.Base.{suc, ◌≡◌, refl, sym, ap, ◌∙◌, List, [], ◌∷◌, arith, map, length, ok}
use persia.Simd.Lanes.{Floats}
use persia.Simd.{add_assign_avx2}
use persia.Simd.Elementwise.{Row, rows2, add_assign_avx2-rows}

module _ (fl : Floats) where
  abbrev pub zip_add : List fl.F → List fl.F → List fl.F
  zip_add [] ys = []
  zip_add (x ∷ xs) [] = []
  zip_add (x ∷ xs) (y ∷ ys) = fl.add x y ∷ zip_add xs ys

  pub length-zip_add :
      (xs ys : List fl.F) → length xs ≡ length ys → length (zip_add xs ys) ≡ length ys
  length-zip_add [] [] h = refl
  length-zip_add [] (y ∷ ys) h = absurd (omega arith)
  length-zip_add (x ∷ xs) [] h = absurd (omega arith)
  length-zip_add (x ∷ xs) (y ∷ ys) h = ap suc (length-zip_add xs ys (omega arith))

  -- `add_assign_avx2` on slices of the same length.
  pub add_assign_avx2-zip_add :
      (xs ys : List fl.F) → length xs ≡ length ys → add_assign_avx2 fl xs ys ≡ ok (zip_add xs ys)
  add_assign_avx2-zip_add xs ys h =
      let (rows, p, q) = rows2 xs ys h in
      ap (λ zs. add_assign_avx2 fl zs ys) (sym p)
      ∙ ap (add_assign_avx2 fl (map (λ r. r.embedding) rows)) (sym q)
      ∙ add_assign_avx2-rows fl rows
      ∙ ap ok (zipped rows)
      ∙ ap (λ zs. ok (zip_add zs (map (λ r. r.gradient) rows))) p
      ∙ ap (λ zs. ok (zip_add xs zs)) q
    where
      zipped :
          (rows : List (Row fl.F))
          → map (λ r. fl.add r.embedding r.gradient) rows
            ≡ zip_add (map (λ r. r.embedding) rows) (map (λ r. r.gradient) rows)
      zipped [] = refl
      zipped (r ∷ rows) = ap (◌∷◌ (fl.add r.embedding r.gradient)) (zipped rows)
