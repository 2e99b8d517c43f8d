-- ===== src/Socket/InterfaceLaws.antt =====
-- The entries that SockGetIfAddrs (src/wamr_ext_lib/WasiSocketExt.cpp) writes.
use wamr_ext.Prelude.{
  Bool-cases, List, Option, [], ap, inl, inr, length, map, none, refl, some, true, ◌++◌, ◌∷◌, ◌≡◌,
  ◌⊎◌, ◌∙◌, suc, false, is_empty, arith, if◌then◌else◌, length-append, ℕ, ◌%◌, ◌+◌, ◌<◌, ◌^◌,
}
use wamr_ext.Prelude.Text.{text_eq, text_eq_iff, text_eq_refl, Text}
use wamr_ext.Prelude.TextMap.{TextMap, insert, lookup, lookup-insert}
use wamr_ext.Socket.{HostSockAddr}
use wamr_ext.Socket.Address.{is_ip, host_sock_addr_to_wasi_app_sock_addr}
use wamr_ext.Socket.Interfaces.{
  HostIfAddr, IfInfo, IfSockAddr, add_addr, net, or_new, packet, IfHost, WasiIfAddr, add_if_addrs,
  addr_entry, cut_name, if_entries, net_of, zero_sock_addr, bare_entry, count_entries, entry_count,
}

-- An element of a list with a property.
abbrev pub Some {ℓ} : {A : Type ℓ} → (A → Type 0) → List A → Type 0
Some P [] = ⊥
Some P (x ∷ xs) = P x ⊎ Some P xs

module _ {A : Type 0} (P : A → Type 0) where
  Some-left : (xs ys : List A) → Some P xs → Some P (xs ++ ys)
  Some-left [] ys s = absurd s
  Some-left (x ∷ xs) ys (inl p) = inl p
  Some-left (x ∷ xs) ys (inr s) = inr (Some-left xs ys s)

  Some-right : (xs ys : List A) → Some P ys → Some P (xs ++ ys)
  Some-right [] ys s = s
  Some-right (x ∷ xs) ys s = inr (Some-right xs ys s)

Some-map :
    {A B : Type 0} (P : A → Type 0) (Q : B → Type 0) (f : A → B) (xs : List A)
    → ((x : A) → P x → Q (f x))
    → Some P xs
    → Some Q (map f xs)
Some-map P Q f [] h s = absurd s
Some-map P Q f (x ∷ xs) h (inl p) = inl (h x p)
Some-map P Q f (x ∷ xs) h (inr s) = inr (Some-map P Q f xs h s)

length-map : {A B : Type 0} (f : A → B) (xs : List A) → length (map f xs) ≡ length xs
length-map f [] = refl
length-map f (x ∷ xs) = ap suc (length-map f xs)

-- The map holds an address under the name of its interface.
abbrev Holds : HostIfAddr → TextMap IfInfo → Type 0
Holds a m = (i : IfInfo) × (lookup a.ifa_name m ≡ some i) × Some (λ x. x ≡ a) i.if_addrs

-- An address of the families that are given to the app.
abbrev pub IsIp : HostIfAddr → Type 0
IsIp a = (addr : HostSockAddr) × (a.ifa_addr ≡ some (net addr)) × (is_ip addr ≡ true)

add_addr-keeps :
    (P : HostIfAddr → Type 0) (a : HostIfAddr) (o : Option IfSockAddr) (i : IfInfo)
    → Some P i.if_addrs
    → Some P (add_addr a o i).if_addrs
unfolding add_addr
add_addr-keeps P a none i s = s
add_addr-keeps P a (some (packet mac index)) i s = s
add_addr-keeps P a (some (net addr)) i s = elim (Bool-cases (is_ip addr)) [
  | inl ip ↦ rw (ip, add_addr) (Some-left P i.if_addrs (a ∷ []) s)
  | inr not_ip ↦ rw (not_ip, add_addr) s
]

add_addr-enters :
    (a : HostIfAddr) (o : Option IfSockAddr) (i : IfInfo) (addr : HostSockAddr)
    → o ≡ some (net addr)
    → is_ip addr ≡ true
    → Some (λ x. x ≡ a) (add_addr a o i).if_addrs
unfolding add_addr
add_addr-enters a o i addr is_net ip =
    rw (is_net, add_addr, ip) (Some-right (λ x. x ≡ a) i.if_addrs (a ∷ []) (inl refl))

abbrev with_flags : HostIfAddr → TextMap IfInfo → IfInfo
with_flags a m = record (or_new (lookup a.ifa_name m)) { flags = a.ifa_flags }

abbrev step : HostIfAddr → TextMap IfInfo → TextMap IfInfo
step a m = insert a.ifa_name (add_addr a a.ifa_addr (with_flags a m)) m

step-keeps : (a b : HostIfAddr) (m : TextMap IfInfo) → Holds a m → Holds a (step b m)
step-keeps a b m (i, found, s) =
    let after = add_addr b b.ifa_addr (with_flags b m) in
    let looked = lookup-insert b.ifa_name a.ifa_name after m in
    elim (Bool-cases (text_eq b.ifa_name a.ifa_name)) [
      | inl same ↦
          let name : b.ifa_name ≡ a.ifa_name = (text_eq_iff b.ifa_name a.ifa_name).0 same in
          let info : or_new (lookup b.ifa_name m) ≡ i = rw (name, found) refl in
          (
            after,
            looked ∙ rw same refl,
            add_addr-keeps (λ x. x ≡ a) b b.ifa_addr (with_flags b m) (rw info s),
          )
      | inr differs ↦ (i, looked ∙ (rw differs found), s)
    ]

step-enters : (a : HostIfAddr) (m : TextMap IfInfo) → IsIp a → Holds a (step a m)
step-enters a m (addr, is_net, ip) =
    let after = add_addr a a.ifa_addr (with_flags a m) in
    let looked = lookup-insert a.ifa_name a.ifa_name after m in
    (
      after,
      looked ∙ rw (text_eq_refl a.ifa_name) refl,
      add_addr-enters a a.ifa_addr (with_flags a m) addr is_net ip,
    )

add_if_addrs-keeps :
    (a : HostIfAddr) (addrs : List HostIfAddr) (m : TextMap IfInfo)
    → Holds a m
    → Holds a (add_if_addrs addrs m)
unfolding add_if_addrs
add_if_addrs-keeps a [] m h = h
add_if_addrs-keeps a (b ∷ addrs) m h = add_if_addrs-keeps a addrs (step b m) (step-keeps a b m h)

pub add_if_addrs-enters :
    (a : HostIfAddr) (addrs : List HostIfAddr) (m : TextMap IfInfo)
    → IsIp a
    → Some (λ x. x ≡ a) addrs
    → Holds a (add_if_addrs addrs m)
unfolding add_if_addrs
add_if_addrs-enters a [] m ip s = absurd s
add_if_addrs-enters a (b ∷ addrs) m ip (inl same) =
    add_if_addrs-keeps a addrs (step b m) (rw same (step-enters a m ip))
add_if_addrs-enters a (b ∷ addrs) m ip (inr s) = add_if_addrs-enters a addrs (step b m) ip s

-- An entry of the app's for an address.
abbrev pub EntryOf : HostIfAddr → WasiIfAddr → Type 0
EntryOf a e =
    (e.ifa_name ≡ cut_name a.ifa_name)
    × (e.ifa_addr ≡ host_sock_addr_to_wasi_app_sock_addr (net_of a.ifa_addr) zero_sock_addr)

module _ {W : Type 0} (h : IfHost W) where
  addr_entry-EntryOf :
      (name : Text) (i : IfInfo) (a x : HostIfAddr)
      → name ≡ a.ifa_name
      → x ≡ a
      → EntryOf a (addr_entry h name i x)
  unfolding addr_entry
  addr_entry-EntryOf name i a x e s = (
    ap cut_name e,
    ap (λ (y : HostIfAddr). host_sock_addr_to_wasi_app_sock_addr (net_of y.ifa_addr) zero_sock_addr)
        s,
  )

  Some-not_empty : {A : Type 0} (P : A → Type 0) (xs : List A) → Some P xs → is_empty xs ≡ false
  Some-not_empty P [] s = absurd s
  Some-not_empty P (x ∷ xs) s = refl

  pub if_entries-EntryOf :
      (a : HostIfAddr) (m : TextMap IfInfo) → Holds a m → Some (EntryOf a) (if_entries h m)
  unfolding if_entries lookup
  if_entries-EntryOf a [] (i, found, s) = absurd (cc found)
  if_entries-EntryOf a ((name, j) ∷ m) (i, found, s) = elim (Bool-cases (text_eq name a.ifa_name)) [
    | inl same ↦
        let here_found : some j ≡ some i = rw same at found in
        let info : j ≡ i = cc here_found in
        let here_some : Some (λ x. x ≡ a) j.if_addrs = rw info s in
        rw (Some-not_empty (λ x. x ≡ a) j.if_addrs here_some) (
          Some-left (EntryOf a) (map (addr_entry h name j) j.if_addrs) (if_entries h m) (
            Some-map (λ x. x ≡ a) (EntryOf a) (addr_entry h name j) j.if_addrs
              (λ x s'. addr_entry-EntryOf name j a x ((text_eq_iff name a.ifa_name).0 same) s')
              here_some))
    | inr differs ↦
        let later : lookup a.ifa_name m ≡ some i = rw differs at found in
        Some-right (EntryOf a) _ (if_entries h m) (if_entries-EntryOf a m (i, later, s))
  ]

  length-if_entries-one :
      (name : Text) (i : IfInfo)
      → length (
          if is_empty i.if_addrs
          then bare_entry h name i ∷ []
          else map (addr_entry h name i) i.if_addrs)
        ≡ entry_count i
  length-if_entries-one name i = elim (Bool-cases (is_empty i.if_addrs)) [
    | inl bare ↦ rw bare refl
    | inr addrs ↦ rw addrs (length-map (addr_entry h name i) i.if_addrs)
  ]

  pub count_entries-length :
      (n : ℕ) (m : TextMap IfInfo)
      → n < 2 ^ 32
      → count_entries n m ≡ (n + length (if_entries h m)) % 2 ^ 32
  unfolding count_entries if_entries
  count_entries-length n [] small = omega arith
  count_entries-length n ((name, i) ∷ m) small =
      let rest = count_entries-length ((n + entry_count i) % 2 ^ 32) m (omega arith) in
      rw (length-append _ (if_entries h m), length-if_entries-one name i) (omega (arith, rest))
