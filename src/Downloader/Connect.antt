-- ===== src/Downloader/Connect.antt =====
-- n_downloader.c: the parts of a url that `ndl_connect` takes.
use deconz_lib.Base.{
  Option, true, false, if◌then◌else◌, ℕ, ◌+◌, ◌≤◌, ◌<◌, ◌^◌, ◌≡◌, refl, ap, ◌∙◌, Bool, none, some,
  List, ◌++◌, arith, length, store, drop, replicate, All, All-append, length-append,
}
use deconz_lib.Base.Text.{IsChar}
use deconz_lib.Downloader.{
  Entry, EntryState, tcp_connected, ssl_handshake, entry_done, starting, error, open_socket, NetApi,
  Scheme, host_size, scheme_of, copy_host, c_string, connect_to, connect_host, connect,
}
use deconz_lib.Downloader.Host.{
  IsHostChar, IsPath, copy_host-host, IsHostChar→IsChar, c_string-array,
}
use deconz_lib.Downloader.Prefix.{prefix_of, known_scheme, scheme_of-known, drop-prefix, drop-both}

-- The entry with the parts of its url.
abbrev pub split_entry : Bool → List ℕ → Entry → Entry
split_entry secure host e = record e {
  ssl = (known_scheme secure).ssl;
  host = store (replicate host_size 0) 0 host;
  urlpath = (known_scheme secure).at + length host;
}

-- The entry with a socket in this state, or with none.
abbrev pub dialled : Option EntryState → Entry → Entry
dialled none e = record e { status = error; state = entry_done }
dialled (some st) e = record e { status = starting; state = st }

-- What the calls that open a socket to the port of the scheme give: the state of the entry, if
-- there is a socket, and the network.
pub data Dials (api : NetApi) (host : List ℕ) (net : api.Net)
    : Bool → Option EntryState × api.Net → Type 0 where
  secured :
      {n : api.Net}
      → api.ssl_client_init net host 443 ≡ (true, n)
      → Dials api host net true (some ssl_handshake, n)
  not_secured :
      {n : api.Net}
      → api.ssl_client_init net host 443 ≡ (false, n)
      → Dials api host net true (none, n)
  plain :
      {n n' : api.Net}
      → api.tcp_init net ≡ (true, n)
      → api.tcp_connect n host 80 ≡ (true, n')
      → Dials api host net false (some tcp_connected, n')
  not_connected :
      {n n' : api.Net}
      → api.tcp_init net ≡ (true, n)
      → api.tcp_connect n host 80 ≡ (false, n')
      → Dials api host net false (none, api.tcp_close n')
  no_socket : {n : api.Net} → api.tcp_init net ≡ (false, n) → Dials api host net false (none, n)

open_socket-Dials :
    (api : NetApi) (secure : Bool) (host : List ℕ) (net : api.Net)
    → Dials api host net secure (open_socket api (known_scheme secure) host net)
unfolding open_socket
open_socket-Dials api true host net = by_ssl (api.ssl_client_init net host 443) refl
  where
    by_ssl :
        (r : Bool × api.Net)
        → api.ssl_client_init net host 443 ≡ r
        → Dials api host net true ((if r.0 then some ssl_handshake else none), r.1)
    by_ssl (true, n) q = secured q
    by_ssl (false, n) q = not_secured q
open_socket-Dials api false host net =
    by_tcp (api.tcp_init net) refl (api.tcp_connect (api.tcp_init net).1 host 80) refl
  where
    by_tcp :
        (made : Bool × api.Net)
        → api.tcp_init net ≡ made
        → (r : Bool × api.Net) → api.tcp_connect made.1 host 80 ≡ r
        → Dials api host net false (
            if made.0
            then (if r.0 then (some tcp_connected, r.1) else (none, api.tcp_close r.1))
            else (none, made.1))
    by_tcp (true, n) q (true, n') p = plain q p
    by_tcp (true, n) q (false, n') p = not_connected q p
    by_tcp (false, n) q r p = no_socket q

connect_to-dialled :
    (api : NetApi) (s : Scheme) (host : List ℕ) (e : Entry) (net : api.Net)
    → connect_to api s (some host) e net
      ≡ some (dialled (open_socket api s host net).0 e, (open_socket api s host net).1)
unfolding connect_to
connect_to-dialled api s host e net = by_answer (open_socket api s host net)
  where
    by_answer :
        (r : Option EntryState × api.Net)
        → ◌≡◌ {A = Option (Entry × api.Net)}
            (elim r.0 [
              | none ↦ some (record e { status = error; state = entry_done }, r.1)
              | some st ↦ some (record e { status = starting; state = st }, r.1)
            ])
            (some (dialled r.0 e, r.1))
    by_answer (none, n) = refl
    by_answer (some st, n) = refl

module _ (api : NetApi) (e : Entry) (net : api.Net) where
  connect-known :
      (s : Scheme) → scheme_of e.url ≡ some s → connect api e net ≡ connect_host api s e net
  unfolding connect
  connect-known s q = rw (connect, q) refl

  connect_host-copied :
      (s : Scheme) (host : List ℕ) (n : ℕ)
      → copy_host (drop s.at e.url) 0 (replicate host_size 0) ≡ some (host, n)
      → connect_host api s e net
        ≡ connect_to api s
            (c_string host)
            (record e { ssl = s.ssl; host = host; urlpath = s.at + n })
            net
  unfolding connect_host
  connect_host-copied s host n q = rw (connect_host, q) refl

module _ (api : NetApi) (secure : Bool) (host path : List ℕ) (e : Entry) (net : api.Net)
    (url : e.url ≡ prefix_of secure ++ (host ++ path)) (chars : All IsHostChar host)
    (path_chars : All IsChar path) (slash : IsPath path)
    (small : length host + length path + 8 < 2 ^ 32) where
  to_host : connect api e net ≡ connect_host api (known_scheme secure) e net
  to_host =
      let a = All-append IsChar host path (IsHostChar→IsChar host chars) path_chars in
      let known =
        scheme_of-known secure (host ++ path) a (omega (arith, small, length-append host path)) in
      connect-known api e net (known_scheme secure) (ap scheme_of url ∙ known)

  rest_of_url : drop (known_scheme secure).at e.url ≡ host ++ path
  rest_of_url = ap (drop (known_scheme secure).at) url ∙ drop-prefix secure (host ++ path)

  to_array :
      length host ≤ host_size
      → connect api e net
        ≡ connect_to api
            (known_scheme secure)
            (c_string (store (replicate host_size 0) 0 host))
            (split_entry secure host e)
            net
  to_array h =
      to_host
      ∙ connect_host-copied api e net (known_scheme secure) (store (replicate host_size 0) 0 host)
          (length host)
          (ap (λ r. copy_host r 0 (replicate host_size 0)) rest_of_url
            ∙ copy_host-host host path 0 (replicate host_size 0) chars slash (omega (arith, h))
            ∙ ap (λ n. some (store (replicate host_size 0) 0 host, n))
                (let z : 0 + length host ≡ length host = omega arith in z))

  -- For a url of a scheme, a host of fewer than 256 characters without a slash, and a path that is
  -- empty or begins with a slash: the socket is opened with exactly this host and the port 443 for
  -- https, else 80, and closed again when the connection fails. The entry waits for the handshake,
  -- for the request, or is done with an error, by the answers of the network; it holds the host, and
  -- `urlpath` points to the path.
  pub connect-split :
      length host < host_size
      → (r : Option EntryState × api.Net) × Dials api host net secure r
        × (connect api e net ≡ some (dialled r.0 (split_entry secure host e), r.1))
        × (drop (split_entry secure host e).urlpath e.url ≡ path)
  connect-split h = (
    open_socket api (known_scheme secure) host net,
    open_socket-Dials api secure host net,
    to_array (omega (arith, h))
        ∙ ap (λ r. connect_to api (known_scheme secure) r (split_entry secure host e) net)
            (c_string-array host_size host chars h)
        ∙ connect_to-dialled api (known_scheme secure) host (split_entry secure host e) net,
    ap (drop ((known_scheme secure).at + length host)) url ∙ drop-both secure host path,
  )
