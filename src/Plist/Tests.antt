-- ===== src/Plist/Tests.antt =====
-- The codecs on small texts, and their theorems at concrete values.
use perun.Base.{◌≡◌, refl, some, none, codes, arith}
use perun.Plist.Base64.{base64_encode, base64_decode}
use perun.Plist.Base64.RoundTrip.{base64_decode-base64_encode}
use perun.Plist.Escape.{xml_escape, xml_unescape}
use perun.Plist.Escape.RoundTrip.{xml_unescape-xml_escape}

-- RFC 4648, section 10.
foobar : base64_encode (codes "foobar") ≡ codes "Zm9vYmFy"
unfolding base64_encode
foobar = refl

fooba : base64_encode (codes "fooba") ≡ codes "Zm9vYmE="
unfolding base64_encode
fooba = refl

not_base64 : base64_decode (codes "Zm-v") ≡ none
unfolding base64_decode
not_base64 = refl

base64_decode-base64_encode_example :
    base64_decode (base64_encode (codes "foob")) ≡ some (codes "foob")
base64_decode-base64_encode_example = base64_decode-base64_encode (codes "foob") (omega arith)

xml_unescape-xml_escape_example :
    xml_unescape (xml_escape (codes "a<b & \"&lt;\"")) ≡ codes "a<b & \"&lt;\""
xml_unescape-xml_escape_example = xml_unescape-xml_escape (codes "a<b & \"&lt;\"")
