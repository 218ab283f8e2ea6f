-- ===== src/Net/Addresses.antt =====
-- `isPrivateAddress` and `getAcceptorIP_first` of net/netUtil.cpp. The tokens that boost::tokenizer makes of a text,
-- `atoi` of a token, which has no sign, and the addresses of the machine are arguments.
use lobbysvr.Base.{
  ℕ, ◌≡◌, refl, ap, ◌∙◌, Bool, true, false, List, [], ◌∷◌, ◌&&◌, leb, if◌then◌else◌,
}
use lobbysvr.Net.Console.{same_text}

-- The numbers of an address: the tokens without the dots.
unfoldable pub numbers : List (List ℕ) → List (List ℕ)
numbers [] = []
numbers (token ∷ tokens) =
    let rest = numbers tokens in if same_text token (b'.' ∷ []) then rest else token ∷ rest

unfoldable pub is_class_b : ℕ → Bool
is_class_b number = leb 16 number && leb number 31

-- The tests on the first two numbers.
unfoldable pub is_private_net : (List ℕ → ℕ) → List ℕ → List ℕ → Bool
unfolding is_class_b
is_private_net atoi first second =
    if same_text first (b'1' ∷ b'6' ∷ b'9' ∷ [])
    then true
    else if same_text first (b'1' ∷ b'0' ∷ [])
    then true
    else if same_text first (b'1' ∷ b'7' ∷ b'2' ∷ [])
    then is_class_b (atoi second)
    else if same_text first (b'1' ∷ b'9' ∷ b'2' ∷ [])
    then same_text second (b'1' ∷ b'6' ∷ b'8' ∷ [])
    else false

unfoldable pub are_private : (List ℕ → ℕ) → List (List ℕ) → Bool
unfolding is_private_net
are_private atoi [] = false
are_private atoi (a ∷ []) = false
are_private atoi (a ∷ b ∷ []) = false
are_private atoi (a ∷ b ∷ c ∷ []) = false
are_private atoi (a ∷ b ∷ c ∷ d ∷ nums) = is_private_net atoi a b

and_assoc : (a b c : Bool) → ((a && b) && c) ≡ (a && (b && c))
and_assoc true b c = refl
and_assoc false b c = refl

and_twice : (b : Bool) → ((b && true) && b) ≡ (b && true)
and_twice true = refl
and_twice false = refl

module _ (atoi : List ℕ → ℕ) (tokens : List ℕ → List (List ℕ)) where
  unfoldable pub is_private_address : List ℕ → Bool
  unfolding numbers are_private
  is_private_address [] = false
  is_private_address (b ∷ ip) = are_private atoi (numbers (tokens (b ∷ ip)))

  -- The loop of `getAcceptorIP_first` over the addresses left, `last` the last of all.
  unfoldable pub first_public : List ℕ → List (List ℕ) → List ℕ
  unfolding is_private_address
  first_public last [] = last
  first_public last (ip ∷ ips) =
      let rest = first_public last ips in if is_private_address ip then rest else ip

  unfoldable pub last_of : List ℕ → List (List ℕ) → List ℕ
  last_of ip [] = ip
  last_of ip (next ∷ ips) = last_of next ips

  unfoldable pub get_acceptor_ip_first : List (List ℕ) → List ℕ
  unfolding first_public last_of
  get_acceptor_ip_first [] = []
  get_acceptor_ip_first (ip ∷ ips) = first_public (last_of ip ips) (ip ∷ ips)

  -- Whether every address is private.
  abbrev pub all_private : List (List ℕ) → Bool
  all_private [] = true
  all_private (ip ∷ ips) = is_private_address ip && all_private ips

  first_public-private :
      (last : List ℕ) (ips : List (List ℕ))
      → is_private_address (first_public last ips) ≡ (all_private ips && is_private_address last)
  unfolding first_public
  first_public-private last [] = refl
  first_public-private last (ip ∷ ips) =
      each (is_private_address ip) refl (first_public-private last ips)
    where
      each :
          (b : Bool)
          → is_private_address ip ≡ b
          → is_private_address (first_public last ips)
            ≡ (all_private ips && is_private_address last)
          → is_private_address (if b then first_public last ips else ip)
            ≡ ((b && all_private ips) && is_private_address last)
      each true e rest = rest
      each false e rest = e

  all_private-last :
      (ip : List ℕ) (ips : List (List ℕ))
      → (all_private (ip ∷ ips) && is_private_address (last_of ip ips)) ≡ all_private (ip ∷ ips)
  unfolding last_of
  all_private-last ip [] = and_twice (is_private_address ip)
  all_private-last ip (next ∷ ips) =
      and_assoc (is_private_address ip) (all_private (next ∷ ips)) _
      ∙ ap (λ b. is_private_address ip && b) (all_private-last next ips)

  -- The address that is chosen from those of the machine is private only when they all are.
  pub get_acceptor_ip_first-is_private_address :
      (ip : List ℕ) (ips : List (List ℕ))
      → is_private_address (get_acceptor_ip_first (ip ∷ ips)) ≡ all_private (ip ∷ ips)
  unfolding get_acceptor_ip_first
  get_acceptor_ip_first-is_private_address ip ips =
      first_public-private (last_of ip ips) (ip ∷ ips) ∙ all_private-last ip ips
