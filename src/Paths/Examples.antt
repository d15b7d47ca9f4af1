-- ===== src/Paths/Examples.antt =====
-- The theorems on paths at concrete paths, and tests.
use cronet_go.Base.{◌≡◌, refl, true, false, codes}
use cronet_go.Paths.{
  normalize_browser_path, browser_grpc_path, valid_browser_grpc_path, part_allowed, is_letter,
  is_digit, all_allowed, parts_allowed, before_query, with_slashes,
}
use cronet_go.Paths.Shape.{IsBase, normalize_browser_path_settles}
use cronet_go.Paths.Service.{Tunnel, browser_grpc_path-Tunnel}

normalized : normalize_browser_path (codes "xhttp?a=1") ≡ codes "/xhttp/"
unfolding normalize_browser_path before_query with_slashes
normalized = refl

grpc_paths :
    (valid_browser_grpc_path (codes "/a.b") ≡ true)
    × (valid_browser_grpc_path (codes "/a/b") ≡ false)
    × (valid_browser_grpc_path (codes "/a..b") ≡ false)
    × (valid_browser_grpc_path (codes "/1a") ≡ false)
unfolding valid_browser_grpc_path parts_allowed part_allowed is_letter is_digit all_allowed
grpc_paths = (refl, refl, refl, refl)

settled :
    IsBase (normalize_browser_path (codes "a?b"))
    × (normalize_browser_path (normalize_browser_path (codes "a?b"))
        ≡ normalize_browser_path (codes "a?b"))
settled = normalize_browser_path_settles (codes "a?b")

path_allowed : valid_browser_grpc_path (codes "/xhttp.Up/") ≡ true
unfolding valid_browser_grpc_path parts_allowed part_allowed is_letter is_digit all_allowed
path_allowed = refl

browser_grpc_path-Tunnel_example :
    Tunnel (browser_grpc_path (normalize_browser_path (codes "/xhttp.Up/")))
browser_grpc_path-Tunnel_example = browser_grpc_path-Tunnel (codes "/xhttp.Up/") path_allowed
