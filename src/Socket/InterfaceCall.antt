-- ===== src/Socket/InterfaceCall.antt =====
-- SockGetIfAddrs (src/wamr_ext_lib/WasiSocketExt.cpp) as a whole.
use wamr_ext.Prelude.{
  Bool-cases, List, Option-cases, [], ap, arith, inl, inr, length, refl, sym, true, ◌*◌, ◌<◌, ◌==◌,
  ◌^◌, ◌∷◌, ◌≡◌, ◌∙◌,
}
use wamr_ext.Prelude.TextMap.{TextMap}
use wamr_ext.Vm.{u32}
use wamr_ext.Errno.{Errno, enomem, success}
use wamr_ext.Exec.{returns}
use wamr_ext.Socket.Interfaces.{
  HostIfAddr, IfAddrsReq, IfHost, IfInfo, WasiIfAddr, add_if_addrs, after_getifaddrs, count_entries,
  if_entries, sock_get_if_addrs, wasi_ifaddr_size, write_entries,
}
use wamr_ext.Socket.InterfaceLaws.{
  EntryOf, IsIp, Some, add_if_addrs-enters, count_entries-length, if_entries-EntryOf,
}

length_zero : {A : Type 0} (xs : List A) → length xs ≡ 0 → xs ≡ []
length_zero [] e = refl
length_zero (x ∷ xs) e = absurd (omega (arith, e))

-- What a call that returns 0 has written.
abbrev Wrote : List WasiIfAddr → IfAddrsReq → Type 0
Wrote es out = (out.entries ≡ es) × (out.ret_ifaddr_cnt ≡ length es)

abbrev ret : Errno → IfAddrsReq → Errno × IfAddrsReq
ret e r = (e, r)

not_written {ℓ} : {A : Type ℓ} (r out : IfAddrsReq) → ret enomem r ≡ ret success out → A
not_written r out e =
    let no_mem : enomem ≡ success = ap (λ (x : Errno × IfAddrsReq). x.0) e in absurd (cc no_mem)

module _ {W : Type 0} (h : IfHost W) where
  write_entries-Wrote :
      (m : TextMap IfInfo) (req out : IfAddrsReq) (w : W)
      → req.entries ≡ []
      → length (if_entries h m) < 2 ^ 32
      → (write_entries h m req w).0 ≡ (success, out)
      → Wrote (if_entries h m) out
  unfolding write_entries
  write_entries-Wrote m req out w none_yet small e =
      let cnt = count_entries 0 m in
      let exact : cnt ≡ length (if_entries h m) =
        omega (arith, count_entries-length h 0 m (omega arith), small) in
      let p = (h.call_malloc req.app_func_malloc (u32 (wasi_ifaddr_size * cnt)) w).0 in
      elim (Bool-cases (cnt == 0)) [
        | inl empty ↦
            let made : ret success (record req { ret_ifaddr_cnt = cnt }) ≡ ret success out =
              rw (empty, write_entries) at e in
            let same : record req { ret_ifaddr_cnt = cnt } ≡ out =
              ap (λ (x : Errno × IfAddrsReq). x.1) made in
            let no_entries : if_entries h m ≡ [] =
              length_zero (if_entries h m) (ground (arith, empty, exact)) in
            (
              sym (ap IfAddrsReq.entries same) ∙ none_yet ∙ sym no_entries,
              sym (ap IfAddrsReq.ret_ifaddr_cnt same) ∙ exact,
            )
        | inr entered ↦ elim (Option-cases p) [
          | inl traps ↦
              let failed : ret enomem (record req { ret_ifaddr_cnt = cnt }) ≡ ret success out =
                rw (entered, write_entries, traps) at e in
              not_written (record req { ret_ifaddr_cnt = cnt }) out failed
          | inr (buf, gave) ↦ elim (Bool-cases (buf == 0)) [
            | inl null ↦
                let failed : ret enomem (record req { ret_ifaddr_cnt = cnt }) ≡ ret success out =
                  rw (entered, write_entries, gave, null) at e in
                not_written (record req { ret_ifaddr_cnt = cnt }) out failed
            | inr at_buf ↦
                let made : (
                  success,
                  record req {
                    ret_ifaddr_cnt = cnt;
                    app_ret_ifaddrs_buf = buf;
                    entries = if_entries h m;
                  },
                )
                    ≡ (success, out) =
                  rw (entered, write_entries, gave, at_buf) at e in
                let same = ap (λ (x : Errno × IfAddrsReq). x.1) made in
                (sym (ap IfAddrsReq.entries same), sym (ap IfAddrsReq.ret_ifaddr_cnt same) ∙ exact)
          ]
        ]
      ]

  -- Let the request hold no entries and let there be fewer than 2 ^ 32 to write. When a call of
  -- SockGetIfAddrs returns 0, the number in the request is that of the entries, and each of the host's
  -- addresses that is of IPv4 or IPv6 has an entry with it and with the name of its interface, cut to 31
  -- bytes.
  pub sock_get_if_addrs_complete :
      (req out : IfAddrsReq) (w : W) (addrs : List HostIfAddr)
      → req.entries ≡ []
      → (h.getifaddrs w).0 ≡ returns addrs
      → length (if_entries h (add_if_addrs addrs [])) < 2 ^ 32
      → (sock_get_if_addrs h true req w).0 ≡ (success, out)
      → (out.ret_ifaddr_cnt ≡ length out.entries)
        × ((a : HostIfAddr) → IsIp a → Some (λ x. x ≡ a) addrs → Some (EntryOf a) out.entries)
  unfolding sock_get_if_addrs after_getifaddrs
  sock_get_if_addrs_complete req out w addrs empty got small e =
      let m = add_if_addrs addrs [] in
      let v = (h.getifaddrs w).1 in
      let ran : (write_entries h m (record req { ret_ifaddr_cnt = 0 }) v).0 ≡ (success, out) =
        rw (got, sock_get_if_addrs, after_getifaddrs) at e in
      let wrote = write_entries-Wrote m (record req { ret_ifaddr_cnt = 0 }) out v empty small ran in
      (
        wrote.1 ∙ ap length (sym wrote.0),
        λ a ip among.
            rw wrote.0 (if_entries-EntryOf h a m (add_if_addrs-enters a addrs [] ip among)),
      )
