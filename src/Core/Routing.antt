-- ===== src/Core/Routing.antt =====
-- crates/cxs-core/src/routing.rs: which App Server methods belong to the remote host.
use codex_shuttle.Prelude.{String, Bool, false, ◌||◌, List, [], ◌∷◌, ◌==◌, string_eq}

abbrev pub host_request_methods : List String
host_request_methods =
    "command/exec" ∷ "command/exec/resize" ∷ "command/exec/terminate" ∷ "command/exec/write"
    ∷ "fs/copy" ∷ "fs/createDirectory" ∷ "fs/getMetadata" ∷ "fs/readDirectory" ∷ "fs/readFile"
    ∷ "fs/remove" ∷ "fs/unwatch" ∷ "fs/watch" ∷ "fs/writeFile" ∷ "fuzzyFileSearch"
    ∷ "fuzzyFileSearch/sessionStart" ∷ "fuzzyFileSearch/sessionStop"
    ∷ "fuzzyFileSearch/sessionUpdate" ∷ "process/kill" ∷ "process/resizePty" ∷ "process/spawn"
    ∷ "process/writeStdin" ∷ []

abbrev pub host_notification_methods : List String
host_notification_methods =
    "command/exec/outputDelta" ∷ "fs/changed" ∷ "fuzzyFileSearch/sessionCompleted"
    ∷ "fuzzyFileSearch/sessionUpdated" ∷ "process/exited" ∷ "process/outputDelta" ∷ []

abbrev pub required_initialize_fields : List String
required_initialize_fields = "userAgent" ∷ "codexHome" ∷ "platformFamily" ∷ "platformOs" ∷ []

-- `[T]::contains`
unfoldable pub contains : List String → String → Bool
contains [] s = false
contains (x ∷ xs) s = x == s || contains xs s

unfoldable pub is_host_request : String → Bool
is_host_request method = contains host_request_methods method

unfoldable pub is_host_notification : String → Bool
is_host_notification method = contains host_notification_methods method
