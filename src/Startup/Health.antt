-- ===== src/Startup/Health.antt =====
-- cmd/glint/main.go: `buildInfo`, the container's health probe `runHealthcheck`, and the URLs that
-- `printListenURLs` shows. net.SplitHostPort and net.JoinHostPort, the HTTP client and the list of network
-- interfaces are parameters.
use glint.Common.{
  ℕ, Bool, ◌||◌, not, Option, none, some, List, [], ◌∷◌, ◌++◌, ◌==◌, fold, if◌then◌else◌,
}
use glint.Common.Text.{Str, str, str_eq, is_empty}

pub record BuildInfo : Type 0 where
  pub ver : Str
  pub sha : Str
  pub built : Str
  pub dirty : Str

note_setting : Str × Str → BuildInfo → BuildInfo
note_setting (key, value) b =
    if str_eq key (str "vcs.revision")
    then if str_eq b.sha (str "none") then record b { sha = value } else b
    else if str_eq key (str "vcs.time")
    then if str_eq b.built (str "unknown") then record b { built = value } else b
    else if str_eq key (str "vcs.modified")
    then if str_eq value (str "true") then record b { dirty = str "dirty" } else b
    else b

-- The settings are what debug.ReadBuildInfo gives, `none` where it has none.
unfoldable pub build_info :
    (version commit build_time : Str) → Option (List (Str × Str)) → BuildInfo
unfolding note_setting
build_info version commit build_time settings =
    let b : BuildInfo = record {
      ver = version;
      sha = commit;
      built = build_time;
      dirty = str "clean";
    } in
    elim settings [ none ↦ b | some l ↦ fold note_setting l b ]

-- strings.TrimPrefix(s, ":").
trim_colon : Str → Str
trim_colon [] = []
trim_colon (c ∷ s) = if c == b':' then s else c ∷ s

pub record Ip : Type 0 where
  pub text : Str
  pub is_loopback : Bool
  pub is_v4 : Bool

-- A network interface; `addrs` is `none` for an error, and an address that is no IP is `none`.
pub record Interface : Type 0 where
  pub up : Bool
  pub loopback : Bool
  pub addrs : Option (List (Option Ip))

-- Every address, that is "", 0.0.0.0 and ::.
is_unspecified : Str → Bool
is_unspecified host = is_empty host || str_eq host (str "0.0.0.0") || str_eq host (str "::")

-- 0 for a response 200, 1 for any other and for an error.
unfoldable pub exit_code : Option ℕ → ℕ
exit_code none = 1
exit_code (some status) = if status == 200 then 0 else 1

module _ (split_host_port : Str → Option (Str × Str)) where
  host_port : Str → Str × Str
  unfolding trim_colon
  host_port listen = elim (split_host_port listen) [
    | some (host, port) ↦ (host, port)
    | none ↦ ([], trim_colon listen)
  ]

  -- The address that is probed for a listen address.
  unfoldable pub probe_url : (join_host_port : Str → Str → Str) → (listen : Str) → Str
  unfolding host_port is_unspecified
  probe_url join_host_port listen =
      let (host, port) = host_port listen in
      str "http://"
      ++ (join_host_port (if is_unspecified host then str "127.0.0.1" else host) port
          ++ str "/healthz")

  -- The exit code; `fetch` gives the status of a response, `none` for an error.
  unfoldable pub run_healthcheck :
      (join_host_port : Str → Str → Str) (fetch : Str → Option ℕ) (glint_listen : Str) → ℕ
  unfolding probe_url exit_code
  run_healthcheck join_host_port fetch glint_listen =
      let listen = if is_empty glint_listen then str ":3800" else glint_listen in
      exit_code (fetch (probe_url join_host_port listen))

  -- U+279C in UTF-8.
  abbrev arrow : Str
  arrow = 0xE2 ∷ 0x9E ∷ 0x9C ∷ []

  url_line : (kind host port : Str) → Str
  url_line kind host port =
      str "  " ++ arrow ++ str "  " ++ kind ++ str " http://" ++ host ++ str ":" ++ port ++ str "/"

  abbrev network : Str
  network = str "Network:"

  address_lines : (port : Str) → List (Option Ip) → List Str
  unfolding url_line
  address_lines port [] = []
  address_lines port (none ∷ rest) = address_lines port rest
  address_lines port (some ip ∷ rest) =
      let lines = address_lines port rest in
      if ip.is_loopback || not ip.is_v4 then lines else url_line network ip.text port ∷ lines

  interface_lines : (port : Str) → List Interface → List Str
  unfolding address_lines
  interface_lines port [] = []
  interface_lines port (i ∷ rest) =
      let lines = interface_lines port rest in
      if not i.up || i.loopback
      then lines
      else elim i.addrs [ none ↦ lines | some ips ↦ address_lines port ips ++ lines ]

  -- The lines with URLs, in order.
  unfoldable pub print_listen_urls :
      (interfaces : Option (List Interface)) (listen_addr : Str) → List Str
  unfolding url_line interface_lines is_unspecified
  print_listen_urls interfaces listen_addr = elim (split_host_port listen_addr) [
    | none ↦ []
    | some (host, port) ↦
        url_line (str "Local:  ") (str "localhost") port
        ∷ (if is_unspecified host
            then elim interfaces [ none ↦ [] | some l ↦ interface_lines port l ]
            else if str_eq host (str "localhost")
                || str_eq host (str "127.0.0.1")
                || str_eq host (str "::1")
            then []
            else url_line network host port ∷ [])
  ]
