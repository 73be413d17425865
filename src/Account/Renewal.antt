-- ===== src/Account/Renewal.antt =====
-- Two changes of one password (`CredentialRepository.Replace` of
-- internal/store/postgres/repository.go).
use auth.Base.{
  Bool-cases, List, String, Uuid, [], any, arith, fail, false, inl, inr, map, ok, refl, true, ℕ,
  ◌++◌, ◌<◌, ◌==◌, ◌∷◌, ◌≡◌,
}
use auth.Account.Data.{UserCredential}
use auth.Account.Tables.{
  Tables, UserCredentialHistory, duplicate_key, is_of, is_taken, prune, renew, replace, retire,
  retired,
}

renew-is_of :
    (now : ℕ) (user : Uuid) (kind new_hash : String) (c : UserCredential)
    → let c' = renew now user kind new_hash c in
      (is_of user kind c'.user_id c'.credential_type ≡ is_of user kind c.user_id c.credential_type)
      × (c'.id ≡ c.id)
unfolding renew
renew-is_of now user kind new_hash c = (ground arith, ground arith)

is_taken-renew :
    (now later keep : ℕ) (user : Uuid) (kind new_hash : String) (cs : List UserCredential)
    (hs : List UserCredentialHistory)
    → 0 < keep
    → any (λ c. is_of user kind c.user_id c.credential_type) cs ≡ true
    → is_taken
        (retired later user kind (map (renew now user kind new_hash) cs))
        (prune keep user kind (retired now user kind cs ++ hs))
      ≡ true
unfolding retired prune retire
is_taken-renew now later keep user kind new_hash [] hs some_kept present =
    absurd (ground (arith, present))
is_taken-renew now later keep user kind new_hash (c ∷ cs) hs some_kept present =
    let (same, id) = renew-is_of now user kind new_hash c in
    elim (Bool-cases (is_of user kind c.user_id c.credential_type)) [
      | inl own ↦
          let full : (keep == 0) ≡ false = ground (arith, some_kept) in
          let self : (c.id == c.id) ≡ true = ground arith in
          rw (same, own) (rw (own, full) (rw (id, self) refl))
      | inr other ↦
          let later_one : any (λ c. is_of user kind c.user_id c.credential_type) cs ≡ true =
            ground (arith, present, other) in
          rw (same, other)
            (is_taken-renew now later keep user kind new_hash cs hs some_kept later_one)
    ]

-- Once a credential of a user is replaced, with some history kept, each further replacement of it fails,
-- and leaves the tables as they are.
pub replace-twice :
    (now later keep keep' : ℕ) (user : Uuid) (kind new_hash other : String) (t : Tables)
    → 0 < keep
    → any (λ c. is_of user kind c.user_id c.credential_type) t.credentials ≡ true
    → (replace now user kind new_hash keep t).0 ≡ ok tt
    → let t' = (replace now user kind new_hash keep t).1 in
      replace later user kind other keep' t' ≡ (fail duplicate_key, t')
unfolding replace
replace-twice now later keep keep' user kind new_hash other t some_kept present done =
    let free : is_taken (retired now user kind t.credentials) t.history ≡ false =
      ground (arith, done) in
    rw free (
      rw
        (is_taken-renew now later keep user kind new_hash t.credentials t.history some_kept present)
        refl)
