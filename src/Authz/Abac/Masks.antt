-- ===== src/Authz/Abac/Masks.antt =====
-- What `ApplyFieldMasks` of internal/service/authz/abac.go leaves to be read.
use auth.Base.{
  All, All-append, Bool, List, Option, String, [], any, any-append, arith, elem, eq_iff,
  if◌then◌else◌, none, refl, some, str_eq, ◌∙◌, ◌∷◌, ◌≡◌,
}
use auth.Authz.Domain.{FieldMask}
use auth.Authz.Abac.{Policy, Value, apply_field_masks, condition, mask_fields, mask_key, text}
use auth.Authz.Abac.Deny.{masks_of}

-- The value of a key that is there, replaced.
abbrev pub replaced : String → Option Value → Option Value
replaced s none = none
replaced s (some v) = some (text s)

condition-mask_key :
    (k : String) (m : FieldMask) (fs : List (String × Value))
    → condition k (mask_key m fs)
      ≡ (if str_eq m.field k then replaced m.mask_value (condition k fs) else condition k fs)
unfolding condition mask_key
condition-mask_key k m [] = ground arith
condition-mask_key k m ((j, v) ∷ fs) =
    ground (arith, eq_iff j k, eq_iff j m.field, eq_iff m.field k, condition-mask_key k m fs)

abbrev hides : String → FieldMask → Bool
hides k m = str_eq m.field k

condition-apply :
    (k : String) (fs : List (String × Value)) (ms : List FieldMask)
    → All (λ m. m.mask_value ≡ "***") ms
    → condition k (apply_field_masks fs ms)
      ≡ (if any (hides k) ms then replaced "***" (condition k fs) else condition k fs)
unfolding apply_field_masks
condition-apply k fs [] h = refl
condition-apply k fs (m ∷ ms) h =
    condition-apply k (mask_key m fs) ms h.1 ∙ rw (condition-mask_key k m fs) (ground arith)

mask_fields-hides : (k d : String) (fs : List String) → any (hides k) (mask_fields d fs) ≡ elem k fs
unfolding mask_fields
mask_fields-hides k d [] = refl
mask_fields-hides k d (f ∷ fs) = ground (arith, mask_fields-hides k d fs)

mask_fields-stars :
    (d : String) (fs : List String) → All (λ m. m.mask_value ≡ "***") (mask_fields d fs)
unfolding mask_fields
mask_fields-stars d [] = tt
mask_fields-stars d (f ∷ fs) = (refl, mask_fields-stars d fs)

masks_of-hides :
    (k : String) (ps : List Policy) → any (hides k) (masks_of ps) ≡ any (λ p. elem k p.fields) ps
unfolding masks_of
masks_of-hides k [] = refl
masks_of-hides k (p ∷ ps) =
    any-append (hides k) (mask_fields p.description p.fields) (masks_of ps)
    ∙ rw (mask_fields-hides k p.description p.fields, masks_of-hides k ps)

masks_of-stars : (ps : List Policy) → All (λ m. m.mask_value ≡ "***") (masks_of ps)
unfolding masks_of
masks_of-stars [] = tt
masks_of-stars (p ∷ ps) =
    All-append (λ m. m.mask_value ≡ "***") (mask_fields p.description p.fields) (masks_of ps)
      (mask_fields-stars p.description p.fields, masks_of-stars ps)

-- With the masks of the given policies applied, a field that one of them lists reads "***" wherever
-- it is present, and every other field reads its own value.
condition-apply_field_masks :
    (k : String) (fs : List (String × Value)) (ps : List Policy)
    → condition k (apply_field_masks fs (masks_of ps))
      ≡ (if any (λ p. elem k p.fields) ps then replaced "***" (condition k fs) else condition k fs)
condition-apply_field_masks k fs ps =
    rw (← masks_of-hides k ps) (condition-apply k fs (masks_of ps) (masks_of-stars ps))
