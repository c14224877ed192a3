-- ===== src/Core/Text/Normal.antt =====
-- Equality of texts is decided by `same_text`.
use propnest_api.Base.{◌≡◌, true, [], ◌∷◌, refl, arith}
use propnest_api.Core.Text.{Text, same_text}

pub same_text→eq : (s t : Text) → same_text s t ≡ true → s ≡ t
same_text→eq [] [] h = refl
same_text→eq (c ∷ s) (d ∷ t) h =
    let rest : s ≡ t = same_text→eq s t (ground arith) in let first : c ≡ d = ground arith in cc
same_text→eq [] (d ∷ t) h = ground arith
same_text→eq (c ∷ s) [] h = ground arith

pub same_text_refl : (t : Text) → same_text t t ≡ true
same_text_refl [] = refl
same_text_refl (c ∷ t) = ground (arith, same_text_refl t)
