-- ===== src/Auth/OneToken.antt =====
-- A jwt package that signs one set of claims, for tests.
use tao_core_go.Prelude.{
  ℕ, Text, Bool, true, false, Option, none, some, List, [], ◌∷◌, ◌≡◌, arith, codes, text_eq,
  text_eq_iff, eqb, ◌&&◌, if◌then◌else◌, ap, sym, Bool-cases, inl, inr,
}
use tao_core_go.Auth.{Claims, Jwt}
use tao_core_go.Auth.Access.{JwtLaws}

abbrev is_one_text : Text → List Text → Bool
is_one_text s [] = false
is_one_text s (t ∷ []) = text_eq t s
is_one_text s (t ∷ u ∷ ts) = false

abbrev is_time : ℕ → Option ℕ → Bool
is_time n none = false
is_time n (some t) = eqb t n

is_one_text_eq : (s : Text) (ts : List Text) → is_one_text s ts ≡ true → ts ≡ s ∷ []
is_one_text_eq s [] h = cc
is_one_text_eq s (t ∷ []) h = ap (λ x. x ∷ []) ((text_eq_iff t s).0 h)
is_one_text_eq s (t ∷ u ∷ ts) h = cc

is_time_eq : (n : ℕ) (t : Option ℕ) → is_time n t ≡ true → t ≡ some n
is_time_eq n none h = cc
is_time_eq n (some t) h = ground arith

and_true : (a b : Bool) → a && b ≡ true → (a ≡ true) × (b ≡ true)
and_true a b h = (ground arith, ground arith)

module _ (user_id role issuer audience : Text) (expires issued : ℕ) where
  abbrev pub one_claims : Claims
  one_claims = record {
    user_id = user_id;
    roles = role ∷ [];
    expires_at = some expires;
    issued_at = some issued;
    issuer = issuer;
    audience = audience ∷ [];
  }

  abbrev is_known : Claims → Bool
  is_known c =
      text_eq c.user_id user_id
      && is_one_text role c.roles
      && is_time expires c.expires_at
      && is_time issued c.issued_at
      && text_eq c.issuer issuer
      && is_one_text audience c.audience

  known_claims : (c : Claims) → is_known c ≡ true → c ≡ one_claims
  known_claims c h =
      let (h₁, a) = and_true _ (is_one_text audience c.audience) h in
      let (h₂, s) = and_true _ (text_eq c.issuer issuer) h₁ in
      let (h₃, d) = and_true _ (is_time issued c.issued_at) h₂ in
      let (h₄, e) = and_true _ (is_time expires c.expires_at) h₃ in
      let (u, r) = and_true (text_eq c.user_id user_id) (is_one_text role c.roles) h₄ in
      let at_u = (text_eq_iff c.user_id user_id).0 u in
      let at_r = is_one_text_eq role c.roles r in
      let at_e = is_time_eq expires c.expires_at e in
      let at_d = is_time_eq issued c.issued_at d in
      let at_s = (text_eq_iff c.issuer issuer).0 s in
      let at_a = is_one_text_eq audience c.audience a in
      λ i. record {
        user_id = at_u i;
        roles = at_r i;
        expires_at = at_e i;
        issued_at = at_d i;
        issuer = at_s i;
        audience = at_a i;
      }

  abbrev pub signer : Jwt
  signer = record {
    numeric_date = λ t. t;
    sign = λ secret claims. if is_known claims then some (codes "t") else none;
    parse = λ secret i a now token. some one_claims;
  }

  signed_known :
      (c : Claims) (token : Text)
      → ◌≡◌ {A = Option Text} (if is_known c then some (codes "t") else none) (some token)
      → is_known c ≡ true
  signed_known c token h = elim (Bool-cases (is_known c)) [
    | inl known ↦ known
    | inr other ↦
        absurd (let no_token : ◌≡◌ {A = Option Text} none (some token) = rw other at h in cc)
  ]

  pub signer-JwtLaws : JwtLaws signer
  signer-JwtLaws = record {
    parse-sign = λ secret i a token claims now at until signed _ _ _ _ _ _.
        ap some (sym (known_claims claims (signed_known claims token signed)));
  }
