-- ===== src/Mime/Table/Fourth.antt =====
-- mime.c: the fourth part of the table `MIME_LIST`.
use sillyweb.Base.{List, [], ◌∷◌}
use sillyweb.Mime.Entry.{MimeEntry}

unfoldable pub mime_list_fourth : List MimeEntry
mime_list_fourth =
    record { extension = "py"; mimetype = "text/x-script.phyton" }
    ∷ record { extension = "pyc"; mimetype = "application/x-bytecode.python" }
    ∷ record { extension = "qcp"; mimetype = "audio/vnd.qcelp" }
    ∷ record { extension = "qd3"; mimetype = "x-world/x-3dmf" }
    ∷ record { extension = "qd3d"; mimetype = "x-world/x-3dmf" }
    ∷ record { extension = "qif"; mimetype = "image/x-quicktime" }
    ∷ record { extension = "qt"; mimetype = "video/quicktime" }
    ∷ record { extension = "qtc"; mimetype = "video/x-qtc" }
    ∷ record { extension = "qti"; mimetype = "image/x-quicktime" }
    ∷ record { extension = "qtif"; mimetype = "image/x-quicktime" }
    ∷ record { extension = "ra"; mimetype = "audio/x-pn-realaudio" }
    ∷ record { extension = "ra"; mimetype = "audio/x-pn-realaudio-plugin" }
    ∷ record { extension = "ra"; mimetype = "audio/x-realaudio" }
    ∷ record { extension = "ram"; mimetype = "audio/x-pn-realaudio" }
    ∷ record { extension = "ras"; mimetype = "application/x-cmu-raster" }
    ∷ record { extension = "ras"; mimetype = "image/cmu-raster" }
    ∷ record { extension = "ras"; mimetype = "image/x-cmu-raster" }
    ∷ record { extension = "rast"; mimetype = "image/cmu-raster" }
    ∷ record { extension = "rexx"; mimetype = "text/x-script.rexx" }
    ∷ record { extension = "rf"; mimetype = "image/vnd.rn-realflash" }
    ∷ record { extension = "rgb"; mimetype = "image/x-rgb" }
    ∷ record { extension = "rm"; mimetype = "application/vnd.rn-realmedia" }
    ∷ record { extension = "rm"; mimetype = "audio/x-pn-realaudio" }
    ∷ record { extension = "rmi"; mimetype = "audio/mid" }
    ∷ record { extension = "rmm"; mimetype = "audio/x-pn-realaudio" }
    ∷ record { extension = "rmp"; mimetype = "audio/x-pn-realaudio" }
    ∷ record { extension = "rmp"; mimetype = "audio/x-pn-realaudio-plugin" }
    ∷ record { extension = "rng"; mimetype = "application/ringing-tones" }
    ∷ record { extension = "rng"; mimetype = "application/vnd.nokia.ringing-tone" }
    ∷ record { extension = "rnx"; mimetype = "application/vnd.rn-realplayer" }
    ∷ record { extension = "roff"; mimetype = "application/x-troff" }
    ∷ record { extension = "rp"; mimetype = "image/vnd.rn-realpix" }
    ∷ record { extension = "rpm"; mimetype = "audio/x-pn-realaudio-plugin" }
    ∷ record { extension = "rt"; mimetype = "text/richtext" }
    ∷ record { extension = "rt"; mimetype = "text/vnd.rn-realtext" }
    ∷ record { extension = "rtf"; mimetype = "application/rtf" }
    ∷ record { extension = "rtf"; mimetype = "application/x-rtf" }
    ∷ record { extension = "rtf"; mimetype = "text/richtext" }
    ∷ record { extension = "rtx"; mimetype = "application/rtf" }
    ∷ record { extension = "rtx"; mimetype = "text/richtext" }
    ∷ record { extension = "rv"; mimetype = "video/vnd.rn-realvideo" }
    ∷ record { extension = "s"; mimetype = "text/x-asm" }
    ∷ record { extension = "s3m"; mimetype = "audio/s3m" }
    ∷ record { extension = "saveme"; mimetype = "application/octet-stream" }
    ∷ record { extension = "sbk"; mimetype = "application/x-tbook" }
    ∷ record { extension = "scm"; mimetype = "application/x-lotusscreencam" }
    ∷ record { extension = "scm"; mimetype = "text/x-script.guile" }
    ∷ record { extension = "scm"; mimetype = "text/x-script.scheme" }
    ∷ record { extension = "scm"; mimetype = "video/x-scm" }
    ∷ record { extension = "sdml"; mimetype = "text/plain" }
    ∷ record { extension = "sdp"; mimetype = "application/sdp" }
    ∷ record { extension = "sdp"; mimetype = "application/x-sdp" }
    ∷ record { extension = "sdr"; mimetype = "application/sounder" }
    ∷ record { extension = "sea"; mimetype = "application/sea" }
    ∷ record { extension = "sea"; mimetype = "application/x-sea" }
    ∷ record { extension = "set"; mimetype = "application/set" }
    ∷ record { extension = "sgm"; mimetype = "text/sgml" }
    ∷ record { extension = "sgm"; mimetype = "text/x-sgml" }
    ∷ record { extension = "sgml"; mimetype = "text/sgml" }
    ∷ record { extension = "sgml"; mimetype = "text/x-sgml" }
    ∷ record { extension = "sh"; mimetype = "application/x-bsh" }
    ∷ record { extension = "sh"; mimetype = "application/x-sh" }
    ∷ record { extension = "sh"; mimetype = "application/x-shar" }
    ∷ record { extension = "sh"; mimetype = "text/x-script.sh" }
    ∷ record { extension = "shar"; mimetype = "application/x-bsh" }
    ∷ record { extension = "shar"; mimetype = "application/x-shar" }
    ∷ record { extension = "shtml"; mimetype = "text/html" }
    ∷ record { extension = "shtml"; mimetype = "text/x-server-parsed-html" }
    ∷ record { extension = "sid"; mimetype = "audio/x-psid" }
    ∷ record { extension = "sit"; mimetype = "application/x-sit" }
    ∷ record { extension = "sit"; mimetype = "application/x-stuffit" }
    ∷ record { extension = "skd"; mimetype = "application/x-koan" }
    ∷ record { extension = "skm"; mimetype = "application/x-koan" }
    ∷ record { extension = "skp"; mimetype = "application/x-koan" }
    ∷ record { extension = "skt"; mimetype = "application/x-koan" }
    ∷ record { extension = "sl"; mimetype = "application/x-seelogo" }
    ∷ record { extension = "smi"; mimetype = "application/smil" }
    ∷ record { extension = "smil"; mimetype = "application/smil" }
    ∷ record { extension = "snd"; mimetype = "audio/basic" }
    ∷ record { extension = "snd"; mimetype = "audio/x-adpcm" }
    ∷ record { extension = "sol"; mimetype = "application/solids" }
    ∷ record { extension = "spc"; mimetype = "application/x-pkcs7-certificates" }
    ∷ record { extension = "spc"; mimetype = "text/x-speech" }
    ∷ record { extension = "spl"; mimetype = "application/futuresplash" }
    ∷ record { extension = "spr"; mimetype = "application/x-sprite" }
    ∷ record { extension = "sprite"; mimetype = "application/x-sprite" }
    ∷ record { extension = "src"; mimetype = "application/x-wais-source" }
    ∷ record { extension = "ssi"; mimetype = "text/x-server-parsed-html" }
    ∷ record { extension = "ssm"; mimetype = "application/streamingmedia" }
    ∷ record { extension = "sst"; mimetype = "application/vnd.ms-pki.certstore" }
    ∷ record { extension = "step"; mimetype = "application/step" }
    ∷ record { extension = "stl"; mimetype = "application/sla" }
    ∷ record { extension = "stl"; mimetype = "application/vnd.ms-pki.stl" }
    ∷ record { extension = "stl"; mimetype = "application/x-navistyle" }
    ∷ record { extension = "stp"; mimetype = "application/step" }
    ∷ record { extension = "sv4cpio"; mimetype = "application/x-sv4cpio" }
    ∷ record { extension = "sv4crc"; mimetype = "application/x-sv4crc" }
    ∷ record { extension = "svf"; mimetype = "image/vnd.dwg" }
    ∷ record { extension = "svf"; mimetype = "image/x-dwg" }
    ∷ record { extension = "svr"; mimetype = "application/x-world" }
    ∷ record { extension = "svr"; mimetype = "x-world/x-svr" }
    ∷ record { extension = "swf"; mimetype = "application/x-shockwave-flash" }
    ∷ record { extension = "t"; mimetype = "application/x-troff" }
    ∷ record { extension = "talk"; mimetype = "text/x-speech" }
    ∷ record { extension = "tar"; mimetype = "application/x-tar" }
    ∷ record { extension = "tbk"; mimetype = "application/toolbook" }
    ∷ record { extension = "tbk"; mimetype = "application/x-tbook" }
    ∷ record { extension = "tcl"; mimetype = "application/x-tcl" }
    ∷ record { extension = "tcl"; mimetype = "text/x-script.tcl" }
    ∷ record { extension = "tcsh"; mimetype = "text/x-script.tcsh" }
    ∷ record { extension = "tex"; mimetype = "application/x-tex" }
    ∷ record { extension = "texi"; mimetype = "application/x-texinfo" }
    ∷ record { extension = "texinfo"; mimetype = "application/x-texinfo" }
    ∷ record { extension = "text"; mimetype = "application/plain" }
    ∷ record { extension = "text"; mimetype = "text/plain" }
    ∷ record { extension = "tgz"; mimetype = "application/gnutar" }
    ∷ record { extension = "tgz"; mimetype = "application/x-compressed" }
    ∷ record { extension = "tif"; mimetype = "image/tiff" }
    ∷ record { extension = "tif"; mimetype = "image/x-tiff" }
    ∷ record { extension = "tiff"; mimetype = "image/tiff" }
    ∷ record { extension = "tiff"; mimetype = "image/x-tiff" }
    ∷ record { extension = "tr"; mimetype = "application/x-troff" }
    ∷ record { extension = "tsi"; mimetype = "audio/tsp-audio" }
    ∷ record { extension = "tsp"; mimetype = "application/dsptype" }
    ∷ record { extension = "tsp"; mimetype = "audio/tsplayer" }
    ∷ record { extension = "tsv"; mimetype = "text/tab-separated-values" }
    ∷ record { extension = "turbot"; mimetype = "image/florian" }
    ∷ record { extension = "txt"; mimetype = "text/plain" }
    ∷ record { extension = "uil"; mimetype = "text/x-uil" }
    ∷ record { extension = "uni"; mimetype = "text/uri-list" }
    ∷ []
