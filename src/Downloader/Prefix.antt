-- ===== src/Downloader/Prefix.antt =====
-- n_downloader.c: the scheme of a url.
use deconz_lib.Base.{
  ℕ, suc, ◌+◌, ◌≤◌, ◌<◌, ◌^◌, ◌≡◌, refl, ap, ◌∙◌, inl, inr, Bool, true, false, some, List, [], ◌∷◌,
  ◌++◌, arith, if◌then◌else◌, Bool-cases, length, drop, All, All-append, length-append, Reads-front,
}
use deconz_lib.Base.Text.{IsChar, strlen, strlen-length}
use deconz_lib.Sstream.{IsOpen, init, seek}
use deconz_lib.Sstream.Search.{starts_with}
use deconz_lib.Sstream.Search.Find.{starts_with_iff}
use deconz_lib.Downloader.{Scheme, https_prefix, http_prefix, scheme_of}

-- `https://` or `http://`, with the port.
abbrev pub prefix_of : Bool → List ℕ
prefix_of secure = if secure then https_prefix else http_prefix

abbrev pub known_scheme : Bool → Scheme
known_scheme secure =
    if secure
    then record { at = 8; ssl = true; port = 443 }
    else record { at = 7; ssl = false; port = 80 }

init-IsOpen :
    (url : List ℕ)
    → All IsChar url
    → 0 < length url
    → length url < 2 ^ 32
    → IsOpen url (init (some url) (strlen url))
unfolding init
init-IsOpen url a n s = record {
  over = refl;
  fine = ground (arith, strlen-length url a, n);
  fits = omega (arith, strlen-length url a);
  small = omega (arith, strlen-length url a, s);
  within = omega arith;
}

starts_with-front :
    (s rest : List ℕ)
    → All IsChar s
    → All IsChar rest
    → 0 < length s
    → length s + length rest < 2 ^ 32
    → starts_with (some s) (init (some (s ++ rest)) (strlen (s ++ rest))) ≡ true
unfolding init
starts_with-front s rest cs a n small =
    let chars = All-append IsChar s rest cs a in
    let size = length-append s rest in
    let opened =
      init-IsOpen (s ++ rest) chars (omega (arith, size, n)) (omega (arith, size, small)) in
    let len = strlen-length (s ++ rest) chars in
    (starts_with_iff s cs n opened (omega (arith, len, size, n))).1
      (omega (arith, len, size), Reads-front s rest)

-- The fifth character tells the schemes apart.
starts_with-http :
    (rest : List ℕ)
    → All IsChar https_prefix
    → All IsChar (http_prefix ++ rest)
    → length (http_prefix ++ rest) < 2 ^ 32
    → starts_with
        (some https_prefix)
        (init (some (http_prefix ++ rest)) (strlen (http_prefix ++ rest)))
      ≡ false
unfolding init
starts_with-http rest cs a small =
    elim (Bool-cases (
      starts_with (some https_prefix)
        (init (some (http_prefix ++ rest)) (strlen (http_prefix ++ rest))))) [
          | inr e ↦ e
          | inl e ↦
              let opened = init-IsOpen (http_prefix ++ rest) a (omega arith) small in
              let len = strlen-length (http_prefix ++ rest) a in
              let r =
                ((starts_with_iff https_prefix cs (omega arith) opened (omega (arith, len))).0
                  e).1 in
              let fifth : ◌≡◌ {A = ℕ} b':' b's' = r.1.1.1.1.0 in absurd (omega (arith, fifth))
        ]

seek-init :
    (n : ℕ) (url : List ℕ) → n ≤ strlen url → (seek n (init (some url) (strlen url))).pos ≡ n
unfolding seek init
seek-init n url h = ground (arith, h)

pub scheme_of-known :
    (secure : Bool) (rest : List ℕ)
    → All IsChar rest
    → length rest + 8 < 2 ^ 32
    → scheme_of (prefix_of secure ++ rest) ≡ some (known_scheme secure)
unfolding scheme_of
scheme_of-known true rest a small =
    let cs : All IsChar https_prefix = ground arith in
    let len = strlen-length (https_prefix ++ rest) (All-append IsChar https_prefix rest cs a) in
    rw (starts_with-front https_prefix rest cs a (omega arith) (omega (arith, small))) (
      ap (λ n. some (record { at = n; ssl = true; port = 443 }))
        (seek-init 8 (https_prefix ++ rest) (omega (arith, len))))
scheme_of-known false rest a small =
    let cs : All IsChar https_prefix = ground arith in
    let ds : All IsChar http_prefix = ground arith in
    let whole = All-append IsChar http_prefix rest ds a in
    let len = strlen-length (http_prefix ++ rest) whole in
    rw
      (
        starts_with-http rest cs whole (omega (arith, small)),
        starts_with-front http_prefix rest ds a (omega arith) (omega (arith, small)),
      )
      (ap (λ n. some (record { at = n; ssl = false; port = 80 }))
        (seek-init 7 (http_prefix ++ rest) (omega (arith, len))))

pub drop-prefix :
    (secure : Bool) (rest : List ℕ)
    → drop (known_scheme secure).at (prefix_of secure ++ rest) ≡ rest
drop-prefix true rest = refl
drop-prefix false rest = refl

drop-host : (host path : List ℕ) → drop (length host) (host ++ path) ≡ path
drop-host [] path = refl
drop-host (c ∷ host) path = drop-host host path

pub drop-both :
    (secure : Bool) (host path : List ℕ)
    → drop ((known_scheme secure).at + length host) (prefix_of secure ++ (host ++ path)) ≡ path
drop-both true host path =
    ap (λ n. drop n (https_prefix ++ (host ++ path)))
      (let s : 8 + length host ≡ suc (suc (suc (suc (suc (suc (suc (suc (length host)))))))) =
          omega arith in
        s)
    ∙ drop-host host path
drop-both false host path =
    ap (λ n. drop n (http_prefix ++ (host ++ path)))
      (let s : 7 + length host ≡ suc (suc (suc (suc (suc (suc (suc (length host))))))) =
          omega arith in
        s)
    ∙ drop-host host path
