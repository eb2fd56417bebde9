-- ===== src/License/Bound.antt =====
-- What a lease is that the check accepts, and which errors the check raises.
use mathlib.Core.Path.{subst}
use searchcar_desktop.Base.{
  ℕ, String, ◌≡◌, ◌≢◌, refl, sym, ap, ◌∙◌, Bool, true, false, ◌&&◌, ◌||◌, not, Option, none, some,
  List, arith, leb, ◌==◌, ==→eq,
}
use searchcar_desktop.Json.Lookup.{str_eq→eq}
use searchcar_desktop.License.Lease.{
  LicenseError, SignatureError, File, missing, unreadable, content, Checked, raised, ok, Binding,
  Lease, Document, LicenseFiles, need, then_with, refuse_if, required, same_id, key_of,
}
use searchcar_desktop.License.Entitlement.{
  verified, verify_lease_document, bound_lease, bound_to, lease_times,
}

module _ {A : Type 0} {B : Type 0} where
  need-ok :
      (o : Option A) (e : LicenseError) (f : A → Checked B) (b : B)
      → need o e f ≡ ok b
      → (a : A) × (o ≡ some a) × (f a ≡ ok b)
  need-ok none e f b h = absurd (cc)
  need-ok (some a) e f b h = (a, refl, h)

  then_with-ok :
      (c : Checked A) (f : A → Checked B) (b : B)
      → then_with c f ≡ ok b
      → (a : A) × (c ≡ ok a) × (f a ≡ ok b)
  then_with-ok (raised e) f b h = absurd (cc)
  then_with-ok (ok a) f b h = (a, refl, h)

refuse_if-ok :
    {B : Type 0} (r : Bool) (e : LicenseError) (c : Checked B) (b : B)
    → refuse_if r e c ≡ ok b
    → (r ≡ false) × (c ≡ ok b)
refuse_if-ok true e c b h = absurd (cc)
refuse_if-ok false e c b h = (refl, h)

required-ok : {A : Type 0} (f : File A) (a : A) → required f ≡ ok a → f ≡ content a
required-ok missing a h = cc
required-ok (unreadable e) a h = cc
required-ok (content b) a h = ap content (value h)
  where
    value : {A : Type 0} {x y : A} → ok x ≡ ok y → x ≡ y
    value q = cc

verified-ok :
    (o : Option SignatureError) (lease l : Lease)
    → verified o lease ≡ ok l
    → (o ≡ none) × (lease ≡ l)
verified-ok none lease l h = (refl, cc)
verified-ok (some e) lease l h = absurd (cc)

-- an error other than that of a lease that has expired
abbrev is_other : LicenseError → Bool
is_other LicenseError.license_lease_expired = false
is_other _ = true

abbrev Other : {A : Type 0} → Checked A → Type 0
Other c = (e : LicenseError) → c ≡ raised e → is_other e ≡ true

module _ {A : Type 0} where
  error-injective : (e e' : LicenseError) (c : Checked A) → c ≡ raised e → c ≡ raised e' → e ≡ e'
  error-injective e e' c h k = cc

  raised-Other : (e : LicenseError) → is_other e ≡ true → Other {A = A} (raised e)
  raised-Other e o e' h =
      subst (λ (x : LicenseError). is_other x ≡ true) (error-injective e e' (raised e) refl h) o

ok-Other : {A : Type 0} (a : A) → Other (ok a)
ok-Other a e h = absurd (cc)

module _ {A : Type 0} {B : Type 0} where
  need-Other :
      (o : Option A) (e : LicenseError) (f : A → Checked B)
      → is_other e ≡ true
      → ((a : A) → Other (f a))
      → Other (need o e f)
  need-Other none e f h k = raised-Other e h
  need-Other (some a) e f h k = k a

  then_with-Other :
      (c : Checked A) (f : A → Checked B)
      → Other c
      → ((a : A) → Other (f a))
      → Other (then_with c f)
  then_with-Other (raised e) f h k = raised-Other e (h e refl)
  then_with-Other (ok a) f h k = k a

refuse_if-Other :
    {B : Type 0} (r : Bool) (e : LicenseError) (c : Checked B)
    → is_other e ≡ true
    → Other c
    → Other (refuse_if r e c)
refuse_if-Other true e c h k = raised-Other e h
refuse_if-Other false e c h k = k

required-Other : {A : Type 0} (f : File A) → Other (required f)
required-Other missing = raised-Other _ refl
required-Other (unreadable e) = raised-Other _ refl
required-Other (content a) = ok-Other a

verified-Other : (o : Option SignatureError) (lease : Lease) → Other (verified o lease)
verified-Other none lease = ok-Other lease
verified-Other (some e) lease = raised-Other _ refl

lease_times-Other : (lease : Lease) → Other (lease_times lease)
lease_times-Other lease = need-Other lease.server_time _ _ refl (λ s.
    need-Other lease.issued_at _ _ refl (λ i.
      need-Other lease.lease_expires_at _ _ refl
        (λ x. refuse_if-Other (not (s == i) || leb x i) _ _ refl (ok-Other (s, x)))))

same_id-eq : (o : Option String) (s : String) → same_id o s ≡ true → o ≡ some s
same_id-eq none s h = cc
same_id-eq (some t) s h = ap some (str_eq→eq t s h)

module _ (verify : String → String → Lease → Option SignatureError)
    (keys : List (String × String)) where
  -- A lease with a signature that the key that it names has made, for the license and the device of
  -- the binding, issued at the server's time.
  pub record Genuine (files : LicenseFiles) (lease : Lease) (server expires : ℕ) : Type 0 where
    pub binding : Binding
    pub signature : String
    pub key_id : String
    pub key : String
    pub license : String
    pub device : String
    pub bound : files.binding ≡ content binding
    pub signed : files.lease ≡ content (record { payload = some lease; signature = some signature })
    pub protocol : lease.protocol_valid ≡ true
    pub names_key : lease.key_id ≡ some key_id
    pub has_key : key_of key_id keys ≡ some key
    pub verifies : verify key signature lease ≡ none
    pub license_id : lease.license_id ≡ some license
    pub own_license : binding.license_id ≡ some license
    pub device_id : lease.device_id ≡ some device
    pub own_device : binding.device_id ≡ some device
    pub server_time : lease.server_time ≡ some server
    pub issued_at : lease.issued_at ≡ some server
    pub lease_expires_at : lease.lease_expires_at ≡ some expires

  -- what the check of the signature has seen
  record Signed (document : Document) (lease : Lease) : Type 0 where
    payload : document.payload ≡ some lease
    signature : String
    key_id : String
    key : String
    signed : document.signature ≡ some signature
    protocol : lease.protocol_valid ≡ true
    names_key : lease.key_id ≡ some key_id
    has_key : key_of key_id keys ≡ some key
    verifies : verify key signature lease ≡ none

  verify_lease_document-Signed :
      (document : Document) (lease : Lease)
      → verify_lease_document verify document keys ≡ ok lease
      → Signed document lease
  unfolding verify_lease_document
  verify_lease_document-Signed document lease h =
      let (l, p, h1) = need-ok document.payload _ _ lease h in
      let (s, q, h2) = need-ok document.signature _ _ lease h1 in
      let (v, h3) = refuse_if-ok (not l.protocol_valid) _ _ lease h2 in
      let (i, n, h4) = need-ok l.key_id _ _ lease h3 in
      let (k, f, h5) = need-ok (key_of i keys) _ _ lease h4 in
      let (c, same) = verified-ok (verify k s l) l lease h5 in
      subst (λ (x : Lease). Signed document x) same
        (record {
          payload = p;
          signature = s;
          key_id = i;
          key = k;
          signed = q;
          protocol = ground (arith, v);
          names_key = n;
          has_key = f;
          verifies = c;
        })

  record Times (lease : Lease) (server expires : ℕ) : Type 0 where
    server_time : lease.server_time ≡ some server
    issued_at : lease.issued_at ≡ some server
    lease_expires_at : lease.lease_expires_at ≡ some expires

  lease_times-Times :
      (lease : Lease) (server expires : ℕ)
      → lease_times lease ≡ ok (server, expires)
      → Times lease server expires
  lease_times-Times lease server expires h =
      let (s, p, h1) = need-ok lease.server_time _ _ (server, expires) h in
      let (i, q, h2) = need-ok lease.issued_at _ _ (server, expires) h1 in
      let (x, r, h3) = need-ok lease.lease_expires_at _ _ (server, expires) h2 in
      let (t, h4) = refuse_if-ok (not (s == i) || leb x i) _ _ (server, expires) h3 in
      let same : s ≡ i = ==→eq s i (ground (arith, t)) in
      let first : s ≡ server = cc in
      record {
        server_time = p ∙ ap some first;
        issued_at = q ∙ ap some (sym same ∙ first);
        lease_expires_at = cc;
      }

  -- the ids of a lease that is bound
  bound_to-ids :
      (binding : Binding) (lease : Lease)
      → bound_to binding lease ≡ true
      → (license : String) × (device : String) × (lease.license_id ≡ some license)
        × (binding.license_id ≡ some license)
        × (lease.device_id ≡ some device)
        × (binding.device_id ≡ some device)
  bound_to-ids binding lease h = ids lease.license_id lease.device_id refl refl h
    where
      ids :
          (l d : Option String)
          → lease.license_id ≡ l
          → lease.device_id ≡ d
          → (elim l [
            | none ↦ false
            | some x ↦ elim d [
              | none ↦ false
              | some y ↦ same_id binding.license_id x && same_id binding.device_id y
            ]
          ])
            ≡ true
          → (license : String) × (device : String) × (lease.license_id ≡ some license)
            × (binding.license_id ≡ some license)
            × (lease.device_id ≡ some device)
            × (binding.device_id ≡ some device)
      ids none d p q k = absurd (cc)
      ids (some x) none p q k = absurd (cc)
      ids (some x) (some y) p q k = (
        x,
        y,
        p,
        same_id-eq binding.license_id x (ground (arith, k)),
        q,
        same_id-eq binding.device_id y (ground (arith, k)),
      )

  pub bound_lease-Genuine :
      (files : LicenseFiles) (lease : Lease) (server expires : ℕ)
      → bound_lease verify keys files ≡ ok (lease, server, expires)
      → Genuine files lease server expires
  unfolding bound_lease
  bound_lease-Genuine files lease server expires h =
      let goal : Lease × ℕ × ℕ = (lease, server, expires) in
      let (b, p, h1) = then_with-ok (required files.binding) _ goal h in
      let (d, q, h2) = then_with-ok (required files.lease) _ goal h1 in
      let (l, v, h3) = then_with-ok (verify_lease_document verify d keys) _ goal h2 in
      let (t, h4) = refuse_if-ok (not (bound_to b l)) _ _ goal h3 in
      let (ts, m, h5) = then_with-ok (lease_times l) _ goal h4 in
      let same : l ≡ lease = cc in
      let one : ts.0 ≡ server = cc in
      let two : ts.1 ≡ expires = cc in
      build b d p q (verify_lease_document-Signed d lease (v ∙ ap ok same))
        (bound_to-ids b lease (subst (λ (x : Lease). bound_to b x ≡ true) same (ground (arith, t))))
        (subst (λ (x : Lease). Times x server expires) same
          (subst (λ (x : ℕ). Times l x expires) one
            (subst (λ (x : ℕ). Times l ts.0 x) two (lease_times-Times l ts.0 ts.1 m))))
    where
      build :
          (b : Binding) (d : Document)
          → required files.binding ≡ ok b
          → required files.lease ≡ ok d
          → Signed d lease
          → (license : String) × (device : String) × (lease.license_id ≡ some license)
            × (b.license_id ≡ some license)
            × (lease.device_id ≡ some device)
            × (b.device_id ≡ some device)
          → Times lease server expires
          → Genuine files lease server expires
      build b d p q s (x, y, a1, a2, a3, a4) t = record {
        binding = b;
        signature = s.signature;
        key_id = s.key_id;
        key = s.key;
        license = x;
        device = y;
        bound = required-ok files.binding b p;
        signed = required-ok files.lease d q ∙ ap content (pair d s.payload s.signed);
        protocol = s.protocol;
        names_key = s.names_key;
        has_key = s.has_key;
        verifies = s.verifies;
        license_id = a1;
        own_license = a2;
        device_id = a3;
        own_device = a4;
        server_time = t.server_time;
        issued_at = t.issued_at;
        lease_expires_at = t.lease_expires_at;
      }
        where
          pair :
              (e : Document) {v : String}
              → e.payload ≡ some lease
              → e.signature ≡ some v
              → e ≡ record { payload = some lease; signature = some v }
          pair e g h = cc

  verify_lease_document-Other :
      (document : Document) → Other (verify_lease_document verify document keys)
  unfolding verify_lease_document
  verify_lease_document-Other document = need-Other document.payload _ _ refl (λ l.
      need-Other document.signature _ _ refl (λ s. refuse_if-Other (not l.protocol_valid) _ _ refl (
        need-Other l.key_id _ _ refl
          (λ i. need-Other (key_of i keys) _ _ refl (λ k. verified-Other (verify k s l) l)))))

  -- The check of a lease never says that it has expired.
  pub bound_lease-other :
      (files : LicenseFiles)
      → bound_lease verify keys files ≢ raised LicenseError.license_lease_expired
  unfolding bound_lease
  bound_lease-other files h = absurd (
      cc (
        then_with-Other (required files.binding) _ (required-Other files.binding)
          (λ b. then_with-Other (required files.lease) _ (required-Other files.lease) (λ d.
            then_with-Other (verify_lease_document verify d keys) _ (verify_lease_document-Other d)
              (λ l. refuse_if-Other (not (bound_to b l)) _ _ refl (
                then_with-Other (lease_times l) _ (lease_times-Other l)
                  (λ t. ok-Other (l, t.0, t.1))))))
          LicenseError.license_lease_expired h))
