-- ===== src/Ownership/Store/Laws.antt =====
-- What a read returns after a write of the ownership and the override tables.
use anchorix.Prelude.{◌≡◌, refl, some, List, [], ◌∷◌, arith, if◌then◌else◌}
use anchorix.Prelude.Text.{Text, text_eq_iff}
use anchorix.Governance.{CertificateOwnership}
use anchorix.Ownership.Store.{
  Store, owns_key, upsert_row, find_row, upsert_certificate_ownership, get_certificate_ownership,
}

find_row-upsert_row :
    (org cert : Text) (o : CertificateOwnership) (rs : List CertificateOwnership)
    → find_row org cert (upsert_row o rs)
      ≡ (if owns_key org cert o then some o else find_row org cert rs)
unfolding find_row upsert_row
find_row-upsert_row org cert o [] = refl
find_row-upsert_row org cert o (r ∷ rs) = ground (
  arith,
  text_eq_iff r.organization_id o.organization_id,
  text_eq_iff r.certificate_id o.certificate_id,
  text_eq_iff r.organization_id org,
  text_eq_iff r.certificate_id cert,
  text_eq_iff o.organization_id org,
  text_eq_iff o.certificate_id cert,
  find_row-upsert_row org cert o rs,
)

pub get-upsert :
    (org cert : Text) (o : CertificateOwnership) (s : Store)
    → get_certificate_ownership org cert (upsert_certificate_ownership o s)
      ≡ (if owns_key org cert o then some o else get_certificate_ownership org cert s)
unfolding get_certificate_ownership upsert_certificate_ownership
get-upsert org cert o s = find_row-upsert_row org cert o s.ownerships

find_row_key :
    (org cert : Text) (rs : List CertificateOwnership) (r : CertificateOwnership)
    → find_row org cert rs ≡ some r
    → (r.organization_id ≡ org) × (r.certificate_id ≡ cert)
unfolding find_row
find_row_key org cert [] r e = cc
find_row_key org cert (x ∷ xs) r e = ground (
  arith,
  text_eq_iff x.organization_id org,
  text_eq_iff x.certificate_id cert,
  find_row_key org cert xs r,
)

-- a row that is found is the row of its key
pub get_certificate_ownership_key :
    (org cert : Text) (s : Store) (r : CertificateOwnership)
    → get_certificate_ownership org cert s ≡ some r
    → (r.organization_id ≡ org) × (r.certificate_id ≡ cert)
unfolding get_certificate_ownership
get_certificate_ownership_key org cert s r e = find_row_key org cert s.ownerships r e
