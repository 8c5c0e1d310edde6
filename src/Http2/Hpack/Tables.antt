-- ===== src/Http2/Hpack/Tables.antt =====
-- src/http2/hpack_tables.hpp: the static table of RFC 7541, entry for entry.
use libnhttp.Base.{List, [], ◌∷◌, Bytes, codes}

-- A field of a header list, and an entry of a table.
pub record HeaderField : Type 0 where
  pub name : Bytes
  pub value : Bytes

abbrev entry : Bytes → Bytes → HeaderField
entry name value = record { name = name; value = value }

-- Index i of HPACK is position i - 1 here.
unfoldable pub static_table : List HeaderField
static_table =
    entry (codes ":authority") (codes "")
    ∷ entry (codes ":method") (codes "GET")
    ∷ entry (codes ":method") (codes "POST")
    ∷ entry (codes ":path") (codes "/")
    ∷ entry (codes ":path") (codes "/index.html")
    ∷ entry (codes ":scheme") (codes "http")
    ∷ entry (codes ":scheme") (codes "https")
    ∷ entry (codes ":status") (codes "200")
    ∷ entry (codes ":status") (codes "204")
    ∷ entry (codes ":status") (codes "206")
    ∷ entry (codes ":status") (codes "304")
    ∷ entry (codes ":status") (codes "400")
    ∷ entry (codes ":status") (codes "404")
    ∷ entry (codes ":status") (codes "500")
    ∷ entry (codes "accept-charset") (codes "")
    ∷ entry (codes "accept-encoding") (codes "gzip, deflate")
    ∷ entry (codes "accept-language") (codes "")
    ∷ entry (codes "accept-ranges") (codes "")
    ∷ entry (codes "accept") (codes "")
    ∷ entry (codes "access-control-allow-origin") (codes "")
    ∷ entry (codes "age") (codes "")
    ∷ entry (codes "allow") (codes "")
    ∷ entry (codes "authorization") (codes "")
    ∷ entry (codes "cache-control") (codes "")
    ∷ entry (codes "content-disposition") (codes "")
    ∷ entry (codes "content-encoding") (codes "")
    ∷ entry (codes "content-language") (codes "")
    ∷ entry (codes "content-length") (codes "")
    ∷ entry (codes "content-location") (codes "")
    ∷ entry (codes "content-range") (codes "")
    ∷ entry (codes "content-type") (codes "")
    ∷ entry (codes "cookie") (codes "")
    ∷ entry (codes "date") (codes "")
    ∷ entry (codes "etag") (codes "")
    ∷ entry (codes "expect") (codes "")
    ∷ entry (codes "expires") (codes "")
    ∷ entry (codes "from") (codes "")
    ∷ entry (codes "host") (codes "")
    ∷ entry (codes "if-match") (codes "")
    ∷ entry (codes "if-modified-since") (codes "")
    ∷ entry (codes "if-none-match") (codes "")
    ∷ entry (codes "if-range") (codes "")
    ∷ entry (codes "if-unmodified-since") (codes "")
    ∷ entry (codes "last-modified") (codes "")
    ∷ entry (codes "link") (codes "")
    ∷ entry (codes "location") (codes "")
    ∷ entry (codes "max-forwards") (codes "")
    ∷ entry (codes "proxy-authenticate") (codes "")
    ∷ entry (codes "proxy-authorization") (codes "")
    ∷ entry (codes "range") (codes "")
    ∷ entry (codes "referer") (codes "")
    ∷ entry (codes "refresh") (codes "")
    ∷ entry (codes "retry-after") (codes "")
    ∷ entry (codes "server") (codes "")
    ∷ entry (codes "set-cookie") (codes "")
    ∷ entry (codes "strict-transport-security") (codes "")
    ∷ entry (codes "transfer-encoding") (codes "")
    ∷ entry (codes "user-agent") (codes "")
    ∷ entry (codes "vary") (codes "")
    ∷ entry (codes "via") (codes "")
    ∷ entry (codes "www-authenticate") (codes "")
    ∷ []
