-- ===== src/Auth/Domain.antt =====
-- pkg/authentication/authentication.go: sanitizeDomain and removeSubdomain, the domain of cookies.
use wundergraph.Prelude.{
  ℕ, inl, inr, ◌≡◌, refl, true, false, List, [], ◌∷◌, ◌++◌, arith, Bytes, if◌then◌else◌, ltb,
  length, contains_byte, before_byte, split, join, split-append, split_of_none, join-split,
  one-lt-length-split, Bool-cases,
}

-- sanitizeDomain: what stands before the first colon
unfoldable pub sanitize_domain : Bytes → Bytes
unfolding contains_byte before_byte
sanitize_domain domain = if contains_byte b':' domain then before_byte b':' domain else domain

abbrev tail_of : List Bytes → List Bytes
tail_of [] = []
tail_of (_ ∷ parts) = parts

-- removeSubdomain: a domain of three labels or more loses the first
unfoldable pub remove_subdomain : Bytes → Bytes
unfolding split join
remove_subdomain domain =
    let parts = split b'.' domain in
    if ltb (length parts) 3 then domain else join b'.' (tail_of parts)

contains_byte-before_byte : (c : ℕ) (s : Bytes) → contains_byte c (before_byte c s) ≡ false
unfolding contains_byte before_byte
contains_byte-before_byte c [] = refl
contains_byte-before_byte c (a ∷ s) = ground (arith, contains_byte-before_byte c s)

before_byte-append :
    (c : ℕ) (a b : Bytes) → contains_byte c a ≡ false → before_byte c (a ++ c ∷ b) ≡ a
unfolding contains_byte before_byte
before_byte-append c [] b h = ground arith
before_byte-append c (x ∷ a) b h = ground (arith, before_byte-append c a b)

contains_byte-append : (c : ℕ) (a b : Bytes) → contains_byte c (a ++ c ∷ b) ≡ true
unfolding contains_byte
contains_byte-append c [] b = ground arith
contains_byte-append c (x ∷ a) b = ground (arith, contains_byte-append c a b)

-- A host keeps nothing from its port on: the sanitized domain of a host and a port is the host, a
-- domain without a colon is kept, and no sanitized domain holds a colon.
sanitize_domain_lem :
    (host port : Bytes)
    → contains_byte b':' host ≡ false
    → (sanitize_domain (host ++ b':' ∷ port) ≡ host)
      × (sanitize_domain host ≡ host)
      × ((domain : Bytes) → contains_byte b':' (sanitize_domain domain) ≡ false)
unfolding sanitize_domain
sanitize_domain_lem host port h = (
  ground (arith, before_byte-append b':' host port, contains_byte-append b':' host port),
  ground arith,
  λ domain. ground (arith, contains_byte-before_byte b':' domain),
)

-- The first label of a domain is removed exactly if two or more labels follow it.
remove_subdomain-cons :
    (label domain : Bytes)
    → contains_byte b'.' label ≡ false
    → remove_subdomain (label ++ b'.' ∷ domain)
      ≡ (if contains_byte b'.' domain then domain else label ++ b'.' ∷ domain)
unfolding remove_subdomain
remove_subdomain-cons label domain h = elim (Bool-cases (contains_byte b'.' domain)) [
  | inl e ↦ ground (
    arith,
    split-append b'.' label domain,
    one-lt-length-split b'.' domain,
    join-split b'.' domain,
  )
  | inr e ↦ ground (arith, split-append b'.' label domain, split_of_none b'.' domain)
]
