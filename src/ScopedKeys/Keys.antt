-- ===== src/ScopedKeys/Keys.antt =====
-- A key that was created is verified until it expires, and what is verified was signed.
use Prim.Native.String.{String, ◌++◌ as str_append}
use goncho.Prelude.{
  ℕ, ◌-◌, ◌%◌, ◌<◌, ◌≡◌, refl, sym, ap, ◌∙◌, subst, ◌⊎◌, inl, inr, arith, Bool, false, not, Option,
  none, some, List, [], ◌∷◌, ◌==◌, eq_iff, leb, if◌then◌else◌, Bool-cases, Option-cases,
}
use text.Mathlib.TextPositions.{eq_refl}
use goncho.Prelude.Text.{trim_space, append_assoc}
use goncho.Prelude.Result.{ok, err, ok_chain, past_guard}
use goncho.ScopedKeys.{
  KeyError, expired, Params, Claims, Created, Library, dotted, split, or_clock, expiry_text,
  signature, sign, claims_of, has_scope, with_key, create, is_expired, verify_expiration,
  or_invalid, verify_parts, verify_split, verify,
}
use goncho.ScopedKeys.Tokens.{has_dot, split-dotted, split-dotless, join, join-split}

-- RFC 3339 drops the fraction of a second.
abbrev pub to_second : ℕ → ℕ
to_second t = t - t % 1000000000

refused : {A : Type 0} {e : KeyError} {a : A} → (err e ≡ ok a) → ⊥
refused h = cc

module _ (l : Library) where
  abbrev unsigned_key : Claims → String
  unsigned_key c = dotted (l.encode l.header) (l.encode (l.marshal c))

  -- What the libraries do with the claims of a key: the parts of a token have no dot, and decoding
  -- gives back what was encoded, times to the second.
  pub record Inverts (clock : ℕ) (p : Params) : Type 0 where
    pub header_dotless : has_dot (l.encode l.header) ≡ false
    pub payload_dotless : has_dot (l.encode (l.marshal (claims_of l clock p))) ≡ false
    pub signature_dotless :
        has_dot (signature l (unsigned_key (claims_of l clock p)) p.secret) ≡ false
    pub decoded :
        l.decode (l.encode (l.marshal (claims_of l clock p)))
        ≡ some (l.marshal (claims_of l clock p))
    pub unmarshalled : l.unmarshal (l.marshal (claims_of l clock p)) ≡ some (claims_of l clock p)
    pub format_full : (t : ℕ) → p.expires_at ≡ some t → (l.format t == "") ≡ false
    pub parsed : (t : ℕ) → p.expires_at ≡ some t → l.parse (l.format t) ≡ some (to_second t)

  abbrev pub has_ended : Option ℕ → ℕ → Bool
  has_ended none now = false
  has_ended (some t) now = leb (to_second t) now

  abbrev token_of : Claims → String → String
  token_of c secret =
      dotted (l.encode l.header)
        (dotted (l.encode (l.marshal c)) (signature l (unsigned_key c) secret))

  dotted_assoc : (a b c : String) → dotted (dotted a b) c ≡ dotted a (dotted b c)
  dotted_assoc a b c =
      append_assoc a (str_append "." b) (str_append "." c)
      ∙ ap (str_append a) (append_assoc "." b (str_append "." c))

  create-eq-ok :
      (clock : ℕ) (p : Params) {r : Created}
      → create l clock p ≡ ok r
      → ((trim_space p.secret == "") ≡ false)
        × (r ≡ with_key (claims_of l clock p) (token_of (claims_of l clock p) p.secret))
  unfolding create sign
  create-eq-ok clock p {r} h =
      let scoped =
        past_guard (not (has_scope p)) _ _
          (past_guard (not p.admin) _ _ (past_guard (not p.auth_enabled) _ _ h).1).1 in
      let (key, made, done) = ok_chain (sign l (claims_of l clock p) p.secret) _ scoped.1 in
      let (full, same) = past_guard (trim_space p.secret == "") _ _ made in
      let c = claims_of l clock p in
      let found : dotted (unsigned_key c) (signature l (unsigned_key c) p.secret) ≡ key = cc in
      let result : with_key c key ≡ r = cc in
      (full, sym result ∙ ap (with_key c) (sym found ∙ dotted_assoc _ _ _))

  split-token_of :
      (clock : ℕ) (p : Params)
      → Inverts clock p
      → split (token_of (claims_of l clock p) p.secret)
        ≡ l.encode l.header
          ∷ l.encode (l.marshal (claims_of l clock p))
          ∷ signature l (unsigned_key (claims_of l clock p)) p.secret
          ∷ []
  split-token_of clock p i =
      split-dotted _ _ i.header_dotless
      ∙ ap (λ ps. l.encode l.header ∷ ps)
          (split-dotted _ _ i.payload_dotless
            ∙ ap (λ ps. l.encode (l.marshal (claims_of l clock p)) ∷ ps)
                (split-dotless _ i.signature_dotless))

  expiration :
      (clock : ℕ) (p : Params)
      → Inverts clock p
      → (now : ℕ)
      → verify_expiration l (expiry_text l p.expires_at) now
        ≡ (if has_ended p.expires_at now then err expired else ok tt)
  unfolding verify_expiration is_expired
  expiration clock p i now = elim (Option-cases p.expires_at) [
    | inl e ↦ rw e refl
    | inr (t, e) ↦ rw (e, i.format_full t e, i.parsed t e) refl
  ]

  accepted :
      (clock : ℕ) (p : Params)
      → Inverts clock p
      → (now : ℕ) → (trim_space p.secret == "") ≡ false
      → verify_parts l
          (l.encode l.header)
          (l.encode (l.marshal (claims_of l clock p)))
          (signature l (unsigned_key (claims_of l clock p)) p.secret)
          p.secret
          now
        ≡ (if has_ended p.expires_at now then err expired else ok (claims_of l clock p))
  unfolding verify_parts
  accepted clock p i now signed =
      rw
        (
          signed,
          eq_refl (signature l (unsigned_key (claims_of l clock p)) p.secret),
          i.decoded,
          i.unmarshalled,
        )
        (rw (expiration clock p i now) (elim (Bool-cases (has_ended p.expires_at now)) [
          | inl ended ↦ rw ended refl
          | inr going ↦ rw going refl
        ]))

  -- A key that was created gives back its claims under its secret, until it expires: when `ExpiresAt`
  -- is set, then from that time on, to the second, it is refused as expired.
  pub verify-create :
      (clock : ℕ) (p : Params) {r : Created}
      → create l clock p ≡ ok r
      → Inverts clock p
      → (later : ℕ) (now : Option ℕ)
      → verify l later r.key p.secret now
        ≡ (if has_ended p.expires_at (or_clock later now) then err expired else ok r.claims)
  unfolding verify verify_parts
  verify-create clock p h i later now =
      let (signed, made) = create-eq-ok clock p h in
      rw made (rw (split-token_of clock p i) (accepted clock p i (or_clock later now) signed))

  abbrev pub IsCurrent : String → ℕ → Type 0
  IsCurrent raw now = (raw ≡ "") ⊎ ((exp : ℕ) × (l.parse raw ≡ some exp) × (now < exp))

  or_invalid-eq-ok : {A : Type 0} {a : A} (o : Option A) → or_invalid o ≡ ok a → o ≡ some a
  or_invalid-eq-ok none h = cc
  or_invalid-eq-ok (some a) h = cc

  verify_expiration-IsCurrent :
      (raw : String) (now : ℕ) → verify_expiration l raw now ≡ ok tt → IsCurrent raw now
  unfolding verify_expiration is_expired
  verify_expiration-IsCurrent raw now h = elim (Bool-cases (raw == "")) [
    | inl blank ↦ inl ((eq_iff raw "").0 blank)
    | inr full ↦ elim (Option-cases (l.parse raw)) [
      | inl none_read ↦ absurd (refused (rw (full, none_read) at h))
      | inr (exp, read) ↦
          inr (exp, read, ground (arith, past_guard (leb exp now) _ _ (rw (full, read) at h)))
    ]
  ]

  verify_parts-IsCurrent :
      (head payload signed secret : String) (now : ℕ) {c : Claims}
      → verify_parts l head payload signed secret now ≡ ok c
      → (signed ≡ signature l (dotted head payload) secret)
        × (text : String) × (l.decode payload ≡ some text)
        × (l.unmarshal text ≡ some c)
        × IsCurrent c.expires_at now
  unfolding verify_parts
  verify_parts-IsCurrent head payload signed secret now {c} h =
      let signature' = signature l (dotted head payload) secret in
      let (same, accepted_signature) =
        past_guard (not (signed == signature')) _ _
          (past_guard (trim_space secret == "") _ _ h).1 in
      let (text, decoded, h₁) = ok_chain (or_invalid (l.decode payload)) _ accepted_signature in
      let (claims, unmarshalled, h₂) = ok_chain (or_invalid (l.unmarshal text)) _ h₁ in
      let (checked, current, done) = ok_chain (verify_expiration l claims.expires_at now) _ h₂ in
      let result : claims ≡ c = cc in
      (
        (eq_iff signed signature').0 (ground (arith, same)),
        text,
        or_invalid-eq-ok (l.decode payload) decoded,
        or_invalid-eq-ok (l.unmarshal text) unmarshalled ∙ ap some result,
        subst (λ (d : Claims). IsCurrent d.expires_at now) result
            (verify_expiration-IsCurrent claims.expires_at now current),
      )

  three_parts :
      (parts : List String) (secret : String) (now : ℕ) {c : Claims}
      → verify_split l parts secret now ≡ ok c
      → (head payload signed : String) × (parts ≡ head ∷ payload ∷ signed ∷ [])
        × (verify_parts l head payload signed secret now ≡ ok c)
  three_parts [] secret now h = cc
  three_parts (a ∷ []) secret now h = cc
  three_parts (a ∷ b ∷ []) secret now h = cc
  three_parts (a ∷ b ∷ d ∷ []) secret now h = (a, b, d, refl, h)
  three_parts (a ∷ b ∷ d ∷ e ∷ rest) secret now h = cc

  -- A token that is accepted consists of two parts and the signature of these under the secret; the
  -- claims are those that the second part encodes, and they have no expiry or one that lies ahead.
  pub verify-IsCurrent :
      (clock : ℕ) (token secret : String) (now : Option ℕ) {c : Claims}
      → verify l clock token secret now ≡ ok c
      → (head payload text : String) × (token
          ≡ dotted head (dotted payload (signature l (dotted head payload) secret)))
        × (l.decode payload ≡ some text)
        × (l.unmarshal text ≡ some c)
        × IsCurrent c.expires_at (or_clock clock now)
  unfolding verify
  verify-IsCurrent clock token secret now h =
      let (head, payload, signed, whole, h₁) =
        three_parts (split token) secret (or_clock clock now) h in
      let (same, text, decoded, unmarshalled, current) =
        verify_parts-IsCurrent head payload signed secret (or_clock clock now) h₁ in
      (
        head,
        payload,
        text,
        sym (join-split token) ∙ ap join whole ∙ ap (λ s. dotted head (dotted payload s)) same,
        decoded,
        unmarshalled,
        current,
      )
