-- ===== src/Socket/Descriptors.antt =====
-- Who owns a socket of the host that SockOpen or SockAccept (src/wamr_ext_lib/WasiSocketExt.cpp) made:
-- the descriptor table or, for a moment, nobody.
use wamr_ext.Errno.{Errno, HostErrnos, efault, einval}
use wamr_ext.Prelude.Text.{Text}
use wamr_ext.Prelude.{
  List, Bool, [], if◌then◌else◌, ℕ, ◌==◌, ◌∷◌, ◌≡◌, ap, arith, false, refl, true, ◌∙◌,
}
use wamr_ext.Socket.{Host, WasiSockAddr, Domain, FdFlags, Protocol, SockType}
use wamr_ext.Socket.Open.{
  sock_open, insert_new_host_socket_fd_to_table, set_flags, close_refused, fake_path,
  get_host_fd_by_app_fd, get_host_socket_fd, host_domain, host_protocol, host_sock_type, has,
  wasi_sock_cloexec, wasi_sock_nonblock,
}
use wamr_ext.Socket.Calls.{sock_accept}
use wamr_ext.Exec.{
  ◌>>=◌, CRet, Result, done, fails, raise, returns, Exec, checked, continue, lift, require,
}

abbrev pub close_one : ℕ → List ℕ → List ℕ
close_one fd [] = []
close_one fd (x ∷ xs) = if fd == x then xs else x ∷ close_one fd xs

-- The open files that the table does not hold, after a call that makes one.
abbrev pub with_new : {A : Type 0} → (A → ℕ) → CRet A → List ℕ → List ℕ
with_new uv (returns a) files = uv a ∷ files
with_new uv (fails n) files = files

abbrev pub with_taken : ℕ → Result ℕ → List ℕ → List ℕ
with_taken uv (done id) files = close_one uv files
with_taken uv (raise e) files = files

-- What the host's calls do to the files that are open and that the table does not hold.
pub record Loose {W : Type 0} (h : Host W) (loose : W → List ℕ) : Type 0 where
  pub socket_law :
      (d : Domain) (t : SockType) (p : Protocol) (w : W)
      → loose ((h.socket d t p w).1) ≡ with_new h.open_osfhandle ((h.socket d t p w).0) (loose w)
  pub accept_law :
      (fd : ℕ) (w : W)
      → loose ((h.accept fd w).1)
        ≡ with_new (λ a. h.open_osfhandle a.0) ((h.accept fd w).0) (loose w)
  pub flags_law : (fd : ℕ) (f : FdFlags) (w : W) → loose (h.add_fd_flags fd f w) ≡ loose w
  pub insert_law :
      (uv : ℕ) (path : Text) (type : ℕ) (w : W)
      → loose ((h.fd_table_insert uv path type w).1)
        ≡ with_taken uv ((h.fd_table_insert uv path type w).0) (loose w)
  pub close_law : (uv : ℕ) (w : W) → loose (h.fs_close uv w) ≡ close_one uv (loose w)

pub close_one-head : (x : ℕ) (xs : List ℕ) → close_one x (x ∷ xs) ≡ xs
close_one-head x xs = ground arith

module _ {W : Type 0} (loose : W → List ℕ) where
  pub continue-keeps :
      {A B : Type 0} (r : Result A) (f : A → Exec W B) (w : W)
      → ((a : A) (w' : W) → loose ((f a w').1) ≡ loose w')
      → loose ((continue r f w).1) ≡ loose w
  continue-keeps (done a) f w k = k a w
  continue-keeps (raise e) f w k = refl

  pub bind-keeps :
      {A B : Type 0} (m : Exec W A) (f : A → Exec W B)
      → ((w : W) → loose ((m w).1) ≡ loose w)
      → ((a : A) (w : W) → loose ((f a w).1) ≡ loose w)
      → (w : W) → loose (((m >>= f) w).1) ≡ loose w
  bind-keeps m f k l w = continue-keeps ((m w).0) f ((m w).1) l ∙ k w

  pub require-keeps : (b : Bool) (e : Errno) (w : W) → loose ((require b e w).1) ≡ loose w
  require-keeps true e w = refl
  require-keeps false e w = refl

  made-settles :
      {A B : Type 0} (errnos : HostErrnos) (uv : A → ℕ) (c : CRet A) (f : A → Exec W B) (w w' : W)
      → loose w' ≡ with_new uv c (loose w)
      → ((a : A) (v : W) (files : List ℕ) → loose v ≡ uv a ∷ files → loose ((f a v).1) ≡ files)
      → loose ((continue (checked errnos c) f w').1) ≡ loose w
  made-settles errnos uv (returns a) f w w' e k = k a w' (loose w) e
  made-settles errnos uv (fails n) f w w' e k = e

module _ {W : Type 0} (h : Host W) (loose : W → List ℕ) (laws : Loose h loose) where
  close_refused-settles :
      (uv : ℕ) (r : Result ℕ) (w : W) (files : List ℕ)
      → loose w ≡ with_taken uv r (uv ∷ files)
      → loose ((close_refused h uv r w).1) ≡ files
  close_refused-settles uv (done id) w files e = e ∙ close_one-head uv files
  close_refused-settles uv (raise er) w files e =
      laws.close_law uv w ∙ (ap (close_one uv) e ∙ close_one-head uv files)

  insert_settles :
      (fd type : ℕ) (w : W) (files : List ℕ)
      → loose w ≡ h.open_osfhandle fd ∷ files
      → loose ((insert_new_host_socket_fd_to_table h fd type w).1) ≡ files
  unfolding insert_new_host_socket_fd_to_table
  insert_settles fd type w files e =
      let uv = h.open_osfhandle fd in
      let ran = h.fd_table_insert uv (fake_path h uv) type w in
      close_refused-settles uv (ran.0) (ran.1) files
        (laws.insert_law uv (fake_path h uv) type w ∙ ap (with_taken uv (ran.0)) e)

  set_flags-loose : (fd type : ℕ) (w : W) → loose (set_flags h fd type w) ≡ loose w
  set_flags-loose fd type w =
      let flags =
        laws.flags_law fd
          (record { nonblock = has type wasi_sock_nonblock; cloexec = has type wasi_sock_cloexec })
          w in
      ground arith

  get_host_fd-loose : (fd : ℕ) (w : W) → loose ((get_host_fd_by_app_fd h fd w).1) ≡ loose w
  unfolding get_host_fd_by_app_fd
  get_host_fd-loose fd =
      bind-keeps loose (λ w. lift (h.fd_table_get fd w) w) _ (λ w. refl) (λ a w. refl)

  get_host_socket_fd-loose : (fd : ℕ) (w : W) → loose ((get_host_socket_fd h fd w).1) ≡ loose w
  unfolding get_host_socket_fd
  get_host_socket_fd-loose fd =
      bind-keeps loose (get_host_fd_by_app_fd h fd) _ (get_host_fd-loose fd) (λ a w. refl)

  -- Let the host's calls open, hand over and close files as they promise. Then every run of SockOpen,
  -- whether it succeeds, is refused, fails in the host or finds the table full, leaves exactly the files
  -- open outside the table that were: no socket leaks and none that is in use is closed.
  pub sock_open-loose :
      (domain type protocol : ℕ) (out : Bool)
      → (w : W) → loose ((sock_open h domain type protocol out w).1) ≡ loose w
  unfolding sock_open
  sock_open-loose domain type protocol out =
      bind-keeps loose (require out einval) _ (require-keeps loose out einval) λ x.
        bind-keeps loose (lift (host_domain h domain)) _ (λ w. refl)
          λ dom.
            bind-keeps loose (lift (host_sock_type h type)) _ (λ w. refl)
              λ types.
                bind-keeps loose (lift (host_protocol h types.0 protocol)) _ (λ w. refl)
                  λ proto w.
                    let ran = h.socket dom types.0 proto w in
                    made-settles loose h.errnos h.open_osfhandle (ran.0) _ w (ran.1)
                      (laws.socket_law dom types.0 proto w)
                      (λ fd v files e.
                        insert_settles fd types.1 (set_flags h fd type v) files
                          (set_flags-loose fd type v ∙ e))

  -- Under the same laws every run of SockAccept leaves exactly the files open outside the table that were.
  pub sock_accept-loose :
      (app_sock_fd : ℕ) (valid : Bool) (a : WasiSockAddr)
      → (w : W) → loose ((sock_accept h app_sock_fd valid a w).1) ≡ loose w
  unfolding sock_accept
  sock_accept-loose app_sock_fd valid a =
      bind-keeps loose (require valid efault) _ (require-keeps loose valid efault) λ x.
        bind-keeps loose (get_host_socket_fd h app_sock_fd) _ (get_host_socket_fd-loose app_sock_fd)
          λ found w.
            let ran = h.accept found.0 w in
            made-settles loose h.errnos (λ a. h.open_osfhandle a.0) (ran.0) _ w (ran.1)
              (laws.accept_law found.0 w)
              (λ acc v files e.
                continue-keeps loose ((insert_new_host_socket_fd_to_table h acc.0 found.1 v).0) _ _
                  (λ i u. refl)
                ∙ insert_settles acc.0 found.1 v files e)
