-- ===== src/Mime/Table/Fifth.antt =====
-- mime.c: the fifth part of the table `MIME_LIST`.
use sillyweb.Base.{List, [], ◌∷◌}
use sillyweb.Mime.Entry.{MimeEntry}

unfoldable pub mime_list_fifth : List MimeEntry
mime_list_fifth =
    record { extension = "unis"; mimetype = "text/uri-list" }
    ∷ record { extension = "unv"; mimetype = "application/i-deas" }
    ∷ record { extension = "uri"; mimetype = "text/uri-list" }
    ∷ record { extension = "uris"; mimetype = "text/uri-list" }
    ∷ record { extension = "ustar"; mimetype = "application/x-ustar" }
    ∷ record { extension = "uu"; mimetype = "application/octet-stream" }
    ∷ record { extension = "uu"; mimetype = "text/x-uuencode" }
    ∷ record { extension = "uue"; mimetype = "text/x-uuencode" }
    ∷ record { extension = "vcd"; mimetype = "application/x-cdlink" }
    ∷ record { extension = "vcs"; mimetype = "text/x-vcalendar" }
    ∷ record { extension = "vda"; mimetype = "application/vda" }
    ∷ record { extension = "vdo"; mimetype = "video/vdo" }
    ∷ record { extension = "vew"; mimetype = "application/groupwise" }
    ∷ record { extension = "viv"; mimetype = "video/vivo" }
    ∷ record { extension = "viv"; mimetype = "video/vnd.vivo" }
    ∷ record { extension = "vivo"; mimetype = "video/vivo" }
    ∷ record { extension = "vivo"; mimetype = "video/vnd.vivo" }
    ∷ record { extension = "vmd"; mimetype = "application/vocaltec-media-desc" }
    ∷ record { extension = "vmf"; mimetype = "application/vocaltec-media-file" }
    ∷ record { extension = "voc"; mimetype = "audio/voc" }
    ∷ record { extension = "voc"; mimetype = "audio/x-voc" }
    ∷ record { extension = "vos"; mimetype = "video/vosaic" }
    ∷ record { extension = "vox"; mimetype = "audio/voxware" }
    ∷ record { extension = "vqe"; mimetype = "audio/x-twinvq-plugin" }
    ∷ record { extension = "vqf"; mimetype = "audio/x-twinvq" }
    ∷ record { extension = "vql"; mimetype = "audio/x-twinvq-plugin" }
    ∷ record { extension = "vrml"; mimetype = "application/x-vrml" }
    ∷ record { extension = "vrml"; mimetype = "model/vrml" }
    ∷ record { extension = "vrml"; mimetype = "x-world/x-vrml" }
    ∷ record { extension = "vrt"; mimetype = "x-world/x-vrt" }
    ∷ record { extension = "vsd"; mimetype = "application/x-visio" }
    ∷ record { extension = "vst"; mimetype = "application/x-visio" }
    ∷ record { extension = "vsw"; mimetype = "application/x-visio" }
    ∷ record { extension = "w60"; mimetype = "application/wordperfect6.0" }
    ∷ record { extension = "w61"; mimetype = "application/wordperfect6.1" }
    ∷ record { extension = "w6w"; mimetype = "application/msword" }
    ∷ record { extension = "wav"; mimetype = "audio/wav" }
    ∷ record { extension = "wav"; mimetype = "audio/x-wav" }
    ∷ record { extension = "wb1"; mimetype = "application/x-qpro" }
    ∷ record { extension = "wbmp"; mimetype = "image/vnd.wap.wbmp" }
    ∷ record { extension = "web"; mimetype = "application/vnd.xara" }
    ∷ record { extension = "wiz"; mimetype = "application/msword" }
    ∷ record { extension = "wk1"; mimetype = "application/x-123" }
    ∷ record { extension = "wmf"; mimetype = "windows/metafile" }
    ∷ record { extension = "wml"; mimetype = "text/vnd.wap.wml" }
    ∷ record { extension = "wmlc"; mimetype = "application/vnd.wap.wmlc" }
    ∷ record { extension = "wmls"; mimetype = "text/vnd.wap.wmlscript" }
    ∷ record { extension = "wmlsc"; mimetype = "application/vnd.wap.wmlscriptc" }
    ∷ record { extension = "word"; mimetype = "application/msword" }
    ∷ record { extension = "wp"; mimetype = "application/wordperfect" }
    ∷ record { extension = "wp5"; mimetype = "application/wordperfect" }
    ∷ record { extension = "wp5"; mimetype = "application/wordperfect6.0" }
    ∷ record { extension = "wp6"; mimetype = "application/wordperfect" }
    ∷ record { extension = "wpd"; mimetype = "application/wordperfect" }
    ∷ record { extension = "wpd"; mimetype = "application/x-wpwin" }
    ∷ record { extension = "wq1"; mimetype = "application/x-lotus" }
    ∷ record { extension = "wri"; mimetype = "application/mswrite" }
    ∷ record { extension = "wri"; mimetype = "application/x-wri" }
    ∷ record { extension = "wrl"; mimetype = "application/x-world" }
    ∷ record { extension = "wrl"; mimetype = "model/vrml" }
    ∷ record { extension = "wrl"; mimetype = "x-world/x-vrml" }
    ∷ record { extension = "wrz"; mimetype = "model/vrml" }
    ∷ record { extension = "wrz"; mimetype = "x-world/x-vrml" }
    ∷ record { extension = "wsc"; mimetype = "text/scriplet" }
    ∷ record { extension = "wsrc"; mimetype = "application/x-wais-source" }
    ∷ record { extension = "wtk"; mimetype = "application/x-wintalk" }
    ∷ record { extension = "xbm"; mimetype = "image/x-xbitmap" }
    ∷ record { extension = "xbm"; mimetype = "image/x-xbm" }
    ∷ record { extension = "xbm"; mimetype = "image/xbm" }
    ∷ record { extension = "xdr"; mimetype = "video/x-amt-demorun" }
    ∷ record { extension = "xgz"; mimetype = "xgl/drawing" }
    ∷ record { extension = "xif"; mimetype = "image/vnd.xiff" }
    ∷ record { extension = "xl"; mimetype = "application/excel" }
    ∷ record { extension = "xla"; mimetype = "application/excel" }
    ∷ record { extension = "xla"; mimetype = "application/x-excel" }
    ∷ record { extension = "xla"; mimetype = "application/x-msexcel" }
    ∷ record { extension = "xlb"; mimetype = "application/excel" }
    ∷ record { extension = "xlb"; mimetype = "application/vnd.ms-excel" }
    ∷ record { extension = "xlb"; mimetype = "application/x-excel" }
    ∷ record { extension = "xlc"; mimetype = "application/excel" }
    ∷ record { extension = "xlc"; mimetype = "application/vnd.ms-excel" }
    ∷ record { extension = "xlc"; mimetype = "application/x-excel" }
    ∷ record { extension = "xld"; mimetype = "application/excel" }
    ∷ record { extension = "xld"; mimetype = "application/x-excel" }
    ∷ record { extension = "xlk"; mimetype = "application/excel" }
    ∷ record { extension = "xlk"; mimetype = "application/x-excel" }
    ∷ record { extension = "xll"; mimetype = "application/excel" }
    ∷ record { extension = "xll"; mimetype = "application/vnd.ms-excel" }
    ∷ record { extension = "xll"; mimetype = "application/x-excel" }
    ∷ record { extension = "xlm"; mimetype = "application/excel" }
    ∷ record { extension = "xlm"; mimetype = "application/vnd.ms-excel" }
    ∷ record { extension = "xlm"; mimetype = "application/x-excel" }
    ∷ record { extension = "xls"; mimetype = "application/excel" }
    ∷ record { extension = "xls"; mimetype = "application/vnd.ms-excel" }
    ∷ record { extension = "xls"; mimetype = "application/x-excel" }
    ∷ record { extension = "xls"; mimetype = "application/x-msexcel" }
    ∷ record { extension = "xlt"; mimetype = "application/excel" }
    ∷ record { extension = "xlt"; mimetype = "application/x-excel" }
    ∷ record { extension = "xlv"; mimetype = "application/excel" }
    ∷ record { extension = "xlv"; mimetype = "application/x-excel" }
    ∷ record { extension = "xlw"; mimetype = "application/excel" }
    ∷ record { extension = "xlw"; mimetype = "application/vnd.ms-excel" }
    ∷ record { extension = "xlw"; mimetype = "application/x-excel" }
    ∷ record { extension = "xlw"; mimetype = "application/x-msexcel" }
    ∷ record { extension = "xm"; mimetype = "audio/xm" }
    ∷ record { extension = "xml"; mimetype = "application/xml" }
    ∷ record { extension = "xml"; mimetype = "text/xml" }
    ∷ record { extension = "xmz"; mimetype = "xgl/movie" }
    ∷ record { extension = "xpix"; mimetype = "application/x-vnd.ls-xpix" }
    ∷ record { extension = "xpm"; mimetype = "image/x-xpixmap" }
    ∷ record { extension = "xpm"; mimetype = "image/xpm" }
    ∷ record { extension = "x-png"; mimetype = "image/png" }
    ∷ record { extension = "xsr"; mimetype = "video/x-amt-showrun" }
    ∷ record { extension = "xwd"; mimetype = "image/x-xwd" }
    ∷ record { extension = "xwd"; mimetype = "image/x-xwindowdump" }
    ∷ record { extension = "xyz"; mimetype = "chemical/x-pdb" }
    ∷ record { extension = "z"; mimetype = "application/x-compress" }
    ∷ record { extension = "z"; mimetype = "application/x-compressed" }
    ∷ record { extension = "zip"; mimetype = "application/x-compressed" }
    ∷ record { extension = "zip"; mimetype = "application/x-zip-compressed" }
    ∷ record { extension = "zip"; mimetype = "application/zip" }
    ∷ record { extension = "zoo"; mimetype = "application/octet-stream" }
    ∷ record { extension = "zsh"; mimetype = "text/x-script.zsh" }
    ∷ []
