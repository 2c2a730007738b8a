-- ===== src/Net/TcpServer/Map.antt =====
-- TcpServer (src/net/src/TcpServer.cc): its map of connections by name.
use dws.Net.TcpServer.{
  Connection, Effect, establishes, destroys, ConnectionMap, has, put, erase, destroy,
}
use dws.Base.{
  text_eq, text_eq-eq, ℕ, ◌+◌, ◌<◌, ◌≡◌, refl, arith, List, [], ◌∷◌, ◌++◌, true, if◌then◌else◌,
}

-- How many entries have the name.
unfoldable pub present : List ℕ → ConnectionMap → ℕ
present k [] = 0
present k (e ∷ m) = (if text_eq e.0 k then 1 else 0) + present k m

-- How often a connection with the name was established, and destroyed.
unfoldable pub established : List ℕ → List Effect → ℕ
established k [] = 0
established k (establishes c ∷ es) = (if text_eq c.name k then 1 else 0) + established k es
established k (destroys c ∷ es) = established k es

unfoldable pub destroyed : List ℕ → List Effect → ℕ
destroyed k [] = 0
destroyed k (establishes c ∷ es) = destroyed k es
destroyed k (destroys c ∷ es) = (if text_eq c.name k then 1 else 0) + destroyed k es

-- Each entry stands under the name of its connection.
abbrev pub IsKeyed : ConnectionMap → Type 0
IsKeyed [] = Unit
IsKeyed (e ∷ m) = (e.0 ≡ e.1.name) × IsKeyed m

pub present-put :
    (k : List ℕ) (n : List ℕ) (c : Connection) (m : ConnectionMap)
    → present n m ≡ 0
    → present k (put n c m) ≡ (if text_eq n k then 1 else 0) + present k m
unfolding present put
present-put k n c [] h = refl
present-put k n c (e ∷ m) h = ground (arith, present-put k n c m)

pub put-IsKeyed : (c : Connection) (m : ConnectionMap) → IsKeyed m → IsKeyed (put c.name c m)
unfolding put
put-IsKeyed c [] h = (refl, tt)
put-IsKeyed c (e ∷ m) h = ground (arith, put-IsKeyed c m)

pub present-erase :
    (k n : List ℕ) (m : ConnectionMap)
    → has n m ≡ true
    → present k (erase n m) + (if text_eq n k then 1 else 0) ≡ present k m
unfolding present erase has
present-erase k n [] h = cc
present-erase k n (e ∷ m) h = ground (arith, present-erase k n m, text_eq-eq e.0 n)

pub erase-IsKeyed : (n : List ℕ) (m : ConnectionMap) → IsKeyed m → IsKeyed (erase n m)
unfolding erase
erase-IsKeyed n [] h = tt
erase-IsKeyed n (e ∷ m) h = ground (arith, erase-IsKeyed n m h.1)

pub has_of_present : (k : List ℕ) (m : ConnectionMap) → 0 < present k m → has k m ≡ true
unfolding has present
has_of_present k [] h = absurd (omega arith)
has_of_present k (e ∷ m) h = ground (arith, has_of_present k m)

pub destroyed-append :
    (k : List ℕ) (xs ys : List Effect) → destroyed k (xs ++ ys) ≡ destroyed k xs + destroyed k ys
unfolding destroyed
destroyed-append k [] ys = omega arith
destroyed-append k (establishes c ∷ xs) ys = destroyed-append k xs ys
destroyed-append k (destroys c ∷ xs) ys = omega (arith, destroyed-append k xs ys)

pub established-append :
    (k : List ℕ) (xs ys : List Effect)
    → established k (xs ++ ys) ≡ established k xs + established k ys
unfolding established
established-append k [] ys = omega arith
established-append k (establishes c ∷ xs) ys = omega (arith, established-append k xs ys)
established-append k (destroys c ∷ xs) ys = established-append k xs ys

pub destroyed-destroy :
    (k : List ℕ) (m : ConnectionMap)
    → IsKeyed m
    → (destroyed k (destroy m) ≡ present k m) × (established k (destroy m) ≡ 0)
unfolding destroyed established destroy present
destroyed-destroy k [] h = (refl, refl)
destroyed-destroy k (e ∷ m) h = ground (arith, destroyed-destroy k m h.1, h.0)
