-- ===== src/Signature/Signer/Handles.antt =====
-- The handles of crypt32 that `get_signer_name` of src/verify_binary_signature.rs opens, read off the
-- calls made so far.
use wintun_bindings.Base.{
  ℕ, List, [], ◌∷◌, ◌≡◌, ◌≢◌, ◌⊎◌, inl, inr, ok, err, some, none, panic, Text, ◌==◌, if◌then◌else◌,
  arith, Outcome-cases, Bool-cases, refl,
}
use wintun_bindings.Failure.{IoError, from_raw_os_error}
use wintun_bindings.Session.Ring.{erase, erase-cons_self}
use wintun_bindings.Signature.Signer.{
  Query, SignerInfo, CryptApi, get_signer_info, find_signer, get_certificate_name, get_signer_name,
  decode_name,
}
use wintun_bindings.Signature.Trust.{terminated}
use wintun_bindings.System.{
  World, Trace, Platform, crypt_query_object, find_certificate, free_certificate,
}
use wintun_bindings.Util.LastError.{fail_with_os_error}

module _ (crypt : CryptApi) where
  -- The stores that were opened. The crate has no call that closes one.
  unfoldable pub stores : Trace → List ℕ
  stores [] = []
  stores (crypt_query_object path ∷ t) = elim (crypt.query_object t path) [
    | some q ↦ q.store ∷ stores t
    | none ↦ stores t
  ]
  stores (c ∷ t) = stores t

  -- The certificates that were found and not freed.
  unfoldable pub certificates : Trace → List ℕ
  certificates [] = []
  certificates (find_certificate s e i n ∷ t) =
      let rest = certificates t in
      if crypt.certificate t s e i n == 0 then rest else crypt.certificate t s e i n ∷ rest
  certificates (free_certificate c ∷ t) = erase c (certificates t)
  certificates (c ∷ t) = certificates t

module _ (p : Platform) (crypt : CryptApi) where
  get_signer_info-same : (msg : ℕ) (w : World) → (get_signer_info p crypt msg w).1 ≡ w
  unfolding get_signer_info
  get_signer_info-same msg w = ground arith

  -- The last part of `get_signer_name` frees the certificate exactly where it returns a name.
  module _ (context : ℕ) (w : World) where
    name-stores :
        stores crypt (get_certificate_name p crypt context w).1.trace ≡ stores crypt w.trace
    unfolding get_certificate_name stores
    name-stores = ground arith

    name-calm : (get_certificate_name p crypt context w).0 ≢ panic
    unfolding get_certificate_name decode_name
    name-calm = ground arith

    name-frees :
        (name : Text)
        → (get_certificate_name p crypt context w).0 ≡ ok name
        → (get_certificate_name p crypt context w).1.trace ≡ free_certificate context ∷ w.trace
    unfolding get_certificate_name
    name-frees name h = ground arith

    name-frees_not :
        (e : IoError)
        → (get_certificate_name p crypt context w).0 ≡ err e
        → (get_certificate_name p crypt context w).1.trace ≡ w.trace
    unfolding get_certificate_name
    name-frees_not e h = ground arith

    name-freed :
        (cs : List ℕ) (name : Text)
        → certificates crypt w.trace ≡ context ∷ cs
        → (get_certificate_name p crypt context w).0 ≡ ok name
        → certificates crypt (get_certificate_name p crypt context w).1.trace ≡ cs
    unfolding get_certificate_name certificates
    name-freed cs name h e = ground (arith, erase-cons_self context cs)

    name-kept :
        (e : IoError)
        → (get_certificate_name p crypt context w).0 ≡ err e
        → certificates crypt (get_certificate_name p crypt context w).1.trace
          ≡ certificates crypt w.trace
    unfolding get_certificate_name certificates
    name-kept e h = ground arith

  module _ (file : List ℕ) (q : Query) (w : World)
      (opens : crypt.query_object w.trace (terminated file) ≡ some q) where
    asked : World
    asked = record w { trace = crypt_query_object (terminated file) ∷ w.trace }

    -- `get_signer_name` from the certificate on.
    from_certificate :
        (info : SignerInfo)
        → (get_signer_info p crypt q.msg asked).0 ≡ ok info
        → let found = (find_signer p crypt q info asked).1 in
          let c = crypt.certificate asked.trace q.store q.encoding info.issuer info.serial_number in
          get_signer_name p crypt file w
          ≡ (if c == 0 then fail_with_os_error p found else get_certificate_name p crypt c found)
    unfolding get_signer_name asked
    from_certificate info i = ground (arith, opens, get_signer_info-same q.msg asked)

    without_signer :
        (e : IoError)
        → (get_signer_info p crypt q.msg asked).0 ≡ err e
        → get_signer_name p crypt file w ≡ (err e, asked)
    unfolding get_signer_name asked
    without_signer e i = ground (arith, opens, get_signer_info-same q.msg asked)

    signer_info-calm : (get_signer_info p crypt q.msg asked).0 ≢ panic
    unfolding get_signer_info
    signer_info-calm = ground arith

  -- The ends of `get_signer_name` on a file that could be opened: there is no signer to look for; or
  -- there is, and its certificate is not found, or is found, and freed if its name is returned and left
  -- otherwise.
  abbrev pub LeavesHandles : List ℕ → Query → World → Type 0
  LeavesHandles file q w =
      let r = get_signer_name p crypt file w in
      let t = crypt_query_object (terminated file) ∷ w.trace in
      let before = record w { trace = t } in
      (stores crypt r.1.trace ≡ q.store ∷ stores crypt w.trace)
      × (((e : IoError) × ((get_signer_info p crypt q.msg before).0 ≡ err e)
            × (r ≡ (err e, before)))
          ⊎ ((info : SignerInfo) × ((get_signer_info p crypt q.msg before).0 ≡ ok info)
              × (let c = crypt.certificate t q.store q.encoding info.issuer info.serial_number in
                  let found =
                    find_certificate q.store q.encoding info.issuer info.serial_number ∷ t in
                  ((c ≡ 0)
                    × (r ≡ (
                      err (from_raw_os_error (p.last_error found)),
                      record w { trace = found },
                    )))
                  ⊎ ((name : Text) × (c ≢ 0)
                      × (r.0 ≡ ok name)
                      × (r.1.trace ≡ free_certificate c ∷ found)
                      × (certificates crypt r.1.trace ≡ certificates crypt w.trace))
                  ⊎ ((e : IoError) × (c ≢ 0)
                      × (r.0 ≡ err e)
                      × (r.1.trace ≡ found)
                      × (certificates crypt r.1.trace ≡ c ∷ certificates crypt w.trace)))))

  -- A file that can be opened leaves its store open, whatever `get_signer_name` returns. The certificate
  -- that it finds is freed if it returns a name; if it finds one and fails later, the certificate is
  -- left.
  pub get_signer_name-handles :
      (file : List ℕ) (q : Query) (w : World)
      → crypt.query_object w.trace (terminated file) ≡ some q
      → LeavesHandles file q w
  unfolding stores certificates asked find_signer fail_with_os_error
  get_signer_name-handles file q w h =
      elim (Outcome-cases (get_signer_info p crypt q.msg (asked file q w h)).0) [
        | inl (info, i) ↦
            let run = from_certificate file q w h info i in
            let w₂ = (find_signer p crypt q info (asked file q w h)).1 in
            let c =
              crypt.certificate (asked file q w h).trace q.store q.encoding info.issuer
                info.serial_number in
            elim (Bool-cases (c == 0)) [
              | inl z ↦
                  rw (run, z) (ground (arith, h, z), inr (info, i, inl (ground (arith, z), refl)))
              | inr nz ↦ elim (Outcome-cases (get_certificate_name p crypt c w₂).0) [
                | inl (name, n) ↦
                    rw (run, nz)
                      (
                        ground (arith, h, name-stores c w₂),
                        inr (
                          info,
                          i,
                          inr (
                              inl (
                                name,
                                ground (arith, nz),
                                n,
                                name-frees c w₂ name n,
                                name-freed c w₂ (certificates crypt w.trace) name
                                    (ground (arith, nz)) n,
                              )),
                        ),
                      )
                | inr (inl (e, n)) ↦
                    rw (run, nz)
                      (
                        ground (arith, h, name-stores c w₂),
                        inr (
                          info,
                          i,
                          inr (
                              inr (
                                e,
                                ground (arith, nz),
                                n,
                                name-frees_not c w₂ e n,
                                ground (arith, nz, name-kept c w₂ e n),
                              )),
                        ),
                      )
                | inr (inr n) ↦ absurd (name-calm c w₂ n)
              ]
            ]
        | inr (inl (e, i)) ↦
            rw (without_signer file q w h e i) (ground (arith, h), inl (e, i, refl))
        | inr (inr i) ↦ absurd (signer_info-calm file q w h i)
      ]
