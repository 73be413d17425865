-- ===== src/Session/Device.antt =====
-- The label of a device (`deviceFromUA` of internal/service/session/service.go).
use Prim.Native.String.{◌++◌ as ◌⧺◌}
use auth.Base.{Bool, List, String, codes, if◌then◌else◌, map, not, str_eq, ℕ, ◌&&◌, ◌||◌}
use auth.Text.{contains, to_lower}

-- `low` is the lower-case text.
has : List ℕ → String → Bool
has low part = contains low (codes part)

browser_of : List ℕ → String
unfolding has
browser_of low =
    if has low "edg/"
    then "Edge"
    else if has low "opr/" || has low "opera"
    then "Opera"
    else if has low "chrome/" && not (has low "chromium")
    then "Chrome"
    else if has low "firefox/"
    then "Firefox"
    else if has low "safari/" && not (has low "chrome")
    then "Safari"
    else "Unknown browser"

os_of : List ℕ → String
unfolding has
os_of low =
    if has low "windows"
    then "Windows"
    else if has low "mac os" || has low "macintosh"
    then "macOS"
    else if has low "android"
    then "Android"
    else if has low "iphone" || has low "ipad"
    then "iOS"
    else if has low "linux"
    then "Linux"
    else "Unknown OS"

unfoldable pub device_from_ua : String → String
unfolding browser_of os_of to_lower
device_from_ua ua =
    let low = map to_lower (codes ua) in
    if str_eq ua "" then "" else (browser_of low ⧺ " on ") ⧺ os_of low
